-- ===== src/System/OnBlock/Index.antt =====
-- About the index of the bids by which contracts/flon.system/src/producer_pay.cpp finds the highest.
use flon_contracts.Base.{
  ℕ, ◌-◌, ◌^◌, ◌<◌, ◌≤◌, ◌≡◌, ◌⊎◌, subst, ap, ℤ, pos, pos_part, neg_part, negsuc, ◌-ℤ◌, ◌≤ℤ◌, ◌<ℤ◌,
  ltb_ℤ, leb, i64, zero, suc, wrap-pos, eq_of_parts, wrap-Fits, int_laws, some, arith,
  if◌then◌else◌, List, [], ◌∷◌, Dict, lookup, Unique, Unique-All, All, All-map, All-zip,
  All-sort_by, sort_by, sort_by-All, sort_by-Sorted, Sorted, Bool-cases, inl, inr,
}
use native.Mathlib.Nat.{mod-eq_of_lt}
use flon_contracts.Chain.{InRange}
use flon_contracts.System.Schedule.{u64}
use flon_contracts.System.NameBids.{NameBid}
use flon_contracts.System.OnBlock.{by_high_bid, lower_bound, highest_bid}

-- What the index sorts by: the open bids stand behind the others, the highest first.
word : ℤ → ℕ
word z = if ltb_ℤ (pos 0) z then 2 ^ 64 - pos_part z else neg_part z

u64-pos : (n : ℕ) → n < 2 ^ 64 → u64 (pos n) ≡ n
unfolding u64
u64-pos n h = mod-eq_of_lt h

u64-negsuc : (n : ℕ) → n < 2 ^ 64 → u64 (negsuc n) ≡ 2 ^ 64 - 1 - n
unfolding u64
u64-negsuc n h = ap (λ m. 2 ^ 64 - 1 - m) (mod-eq_of_lt h)

u64-word : (z : ℤ) → InRange z → u64 (i64 (pos 0 -ℤ z)) ≡ word z
unfolding word
u64-word (pos zero) r =
    rw (eq_of_parts (pos 0 -ℤ pos 0) (pos 0) (omega int_laws))
      (rw (wrap-pos (2 ^ 63) 0 (omega arith)) (u64-pos 0 (omega arith)))
u64-word (pos (suc n)) r = rw (eq_of_parts (pos 0 -ℤ pos (suc n)) (negsuc n) (omega int_laws)) (
    rw (wrap-Fits (2 ^ 63) (negsuc n) (omega arith, omega (arith, r.0)))
      (rw (u64-negsuc n (omega (arith, r.0))) (ground arith)))
u64-word (negsuc n) r = rw (eq_of_parts (pos 0 -ℤ negsuc n) (pos (suc n)) (omega int_laws)) (
    rw (wrap-pos (2 ^ 63) (suc n) (omega (arith, r.1)))
      (rw (u64-pos (suc n) (omega (arith, r.1))) (ground arith)))

by_high_bid-word : (b : NameBid) → InRange b.high_bid → by_high_bid b ≡ word b.high_bid
unfolding by_high_bid
by_high_bid-word b r = u64-word b.high_bid r

lower_bound-All {κ} :
    (P : ℕ × NameBid → Type κ) (bound : ℕ) (l : List (ℕ × NameBid)) (e : ℕ × NameBid)
    → All P l
    → lower_bound bound l ≡ some e
    → P e
unfolding lower_bound
lower_bound-All P bound [] e h f = ground arith
lower_bound-All P bound (x ∷ l) e h f = elim (Bool-cases (leb bound (by_high_bid x.1))) [
  | inl g ↦ let here : x ≡ e = ground arith in subst P here h.0
  | inr g ↦ lower_bound-All P bound l e h.1 (ground arith)
]

lower_bound-Sorted :
    (bound : ℕ) (l : List (ℕ × NameBid)) (e : ℕ × NameBid)
    → Sorted (λ x. by_high_bid x.1) l
    → lower_bound bound l ≡ some e
    → All (λ x. (by_high_bid x.1 < bound) ⊎ (by_high_bid e.1 ≤ by_high_bid x.1)) l
unfolding lower_bound
lower_bound-Sorted bound [] e h f = tt
lower_bound-Sorted bound (x ∷ l) e h f = elim (Bool-cases (leb bound (by_high_bid x.1))) [
  | inl g ↦
      let here : x ≡ e = ground arith in
      subst
        (λ y. All (λ x. (by_high_bid x.1 < bound) ⊎ (by_high_bid y.1 ≤ by_high_bid x.1)) (x ∷ l))
        here (inr (omega arith), All-map _ _ l (λ y le. inr le) h.0)
  | inr g ↦ (inl (ground arith), lower_bound-Sorted bound l e h.1 (ground arith))
]

abbrev pub BidsFit : Dict NameBid → Type 0
BidsFit bids = All (λ e. InRange e.1.high_bid) bids

index : Dict NameBid → List (ℕ × NameBid)
index bids = sort_by (λ e. by_high_bid e.1) (sort_by (λ e. e.0) bids)

into_index {κ} : (P : ℕ × NameBid → Type κ) (bids : Dict NameBid) → All P bids → All P (index bids)
unfolding index
into_index P bids h =
    All-sort_by P (λ e. by_high_bid e.1) (sort_by (λ e. e.0) bids) (All-sort_by P (λ e. e.0) bids h)

from_index {κ} : (P : ℕ × NameBid → Type κ) (bids : Dict NameBid) → All P (index bids) → All P bids
unfolding index
from_index P bids h =
    sort_by-All P (λ e. e.0) bids (sort_by-All P (λ e. by_high_bid e.1) (sort_by (λ e. e.0) bids) h)

no_higher :
    (b q : NameBid)
    → pos 0 <ℤ b.high_bid
    → InRange b.high_bid
    → (by_high_bid q < 2 ^ 63 - 1) ⊎ (by_high_bid b ≤ by_high_bid q)
    → InRange q.high_bid
    → q.high_bid ≤ℤ b.high_bid
unfolding word
no_higher b q positive fb found fq =
    ground (arith, by_high_bid-word b fb, by_high_bid-word q fq, positive, fb, fq, found)

-- The lower bound finds the highest bid, if it finds an open one.
pub highest_bid-lookup :
    (bids : Dict NameBid) (k : ℕ) (b : NameBid)
    → Unique bids
    → BidsFit bids
    → highest_bid bids ≡ some (k, b)
    → pos 0 <ℤ b.high_bid
    → (lookup k bids ≡ some b) × All (λ e. e.1.high_bid ≤ℤ b.high_bid) bids × InRange b.high_bid
unfolding highest_bid index
highest_bid-lookup bids k b u fit h positive =
    let bound = 2 ^ 63 - 1 in
    let fb =
      lower_bound-All (λ e. InRange e.1.high_bid) bound (index bids) (k, b) (into_index _ bids fit)
        h in
    let found =
      lower_bound-Sorted bound (index bids) (k, b)
        (sort_by-Sorted (λ e. by_high_bid e.1) (sort_by (λ e. e.0) bids)) h in
    (
      lower_bound-All (λ e. lookup e.0 bids ≡ some e.1) bound (index bids) (k, b)
          (into_index _ bids (Unique-All bids u)) h,
      from_index _ bids (
          All-zip _ _ _ (index bids) (λ e x y. no_higher b e.1 positive fb x y) found
            (into_index _ bids fit)),
      fb,
    )
