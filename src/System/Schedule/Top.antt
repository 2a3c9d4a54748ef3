-- ===== src/System/Schedule/Top.antt =====
-- About the loops over the index of producers in contracts/flon.system/src/voting.cpp and
-- finalizer_key.cpp.
use flon_contracts.Base.{
  ℕ, ◌+◌, ◌-◌, ◌^◌, ◌≤◌, ◌<◌, ◌≡◌, ◌⊎◌, refl, Bool, true, false, ◌&&◌, ◌||◌, List, [], ◌∷◌, map,
  Option, none, some, ◌==◌, ℤ, pos, negsuc, pos_part, ◌≤ℤ◌, ◌-ℤ◌, ltb_ℤ, i64, wrap-pos, pos-sub,
  Dict, size, All, All-zip, ap, Sorted, arith, Bool-cases, Option-cases, inl, inr,
}
use native.Mathlib.Nat.{mod-eq_of_lt}
use flon_contracts.System.Voting.{ProducerInfo}
use flon_contracts.System.Finalizers.{FinalizerInfo}
use flon_contracts.System.Schedule.{
  u64, by_votes, TopProducer, top_producer, entry, goes_on, select, collect,
}

-- What the checks of `update_producer_votes` leave: votes that are not negative.
abbrev pub VotesFit : ProducerInfo → Type 0
VotesFit p = (pos 0 ≤ℤ p.total_votes) × (pos_part p.total_votes < 2 ^ 63)

u64-pos : (n : ℕ) → n < 2 ^ 64 → u64 (pos n) ≡ n
unfolding u64
u64-pos n h = mod-eq_of_lt h

active_word :
    (z : ℤ)
    → pos 0 ≤ℤ z
    → pos_part z < 2 ^ 63
    → u64 (i64 (pos (2 ^ 63 - 1) -ℤ z)) + pos_part z ≡ 2 ^ 63 - 1
active_word (pos n) nonneg fit = rw (pos-sub (2 ^ 63 - 1) n (omega (arith, fit))) (
    rw (wrap-pos (2 ^ 63) (2 ^ 63 - 1 - n) (omega arith))
      (rw (u64-pos (2 ^ 63 - 1 - n) (omega arith)) (omega (arith, fit))))
active_word (negsuc n) nonneg fit = ground arith

inactive_word : (z : ℤ) → pos 0 ≤ℤ z → pos_part z < 2 ^ 63 → 2 ^ 63 ≤ 2 ^ 64 - 1 - u64 z
inactive_word (pos n) nonneg fit = rw (u64-pos n (omega (arith, fit))) (omega (arith, fit))
inactive_word (negsuc n) nonneg fit = ground arith

by_votes_active :
    (p : ProducerInfo)
    → VotesFit p
    → p.is_active ≡ true
    → by_votes p + pos_part p.total_votes ≡ 2 ^ 63 - 1
unfolding by_votes
by_votes_active p fit e = rw e (active_word p.total_votes fit.0 fit.1)

by_votes_inactive : (p : ProducerInfo) → VotesFit p → p.is_active ≡ false → 2 ^ 63 ≤ by_votes p
unfolding by_votes
by_votes_inactive p fit e = rw e (inactive_word p.total_votes fit.0 fit.1)

abbrev is_some {ℓ} : {A : Type ℓ} → Option A → Bool
is_some none = false
is_some (some a) = true

abbrev pub electable : ProducerInfo → Bool
electable p = ltb_ℤ (pos 0) p.total_votes && p.is_active

-- Active, with votes, and, where finalizers are asked for, with a key that is active.
abbrev pub eligible : Bool → Dict FinalizerInfo → ProducerInfo → Bool
eligible is_savanna finalizers p = electable p && is_some (entry is_savanna finalizers p)

-- Before one that is electable there are only active ones with as many votes at least.
in_order :
    (p q : ProducerInfo)
    → VotesFit p
    → VotesFit q
    → by_votes p ≤ by_votes q
    → electable q ≡ true
    → (electable p ≡ true) × (q.total_votes ≤ℤ p.total_votes)
in_order p q fp fq le e = elim (Bool-cases p.is_active) [
  | inl a ↦ ground (arith, by_votes_active p fp a, by_votes_active q fq, fp, fq)
  | inr a ↦ ground (arith, by_votes_inactive p fp a, by_votes_active q fq, fq)
]

abbrev pub is_among : ℕ → List ProducerInfo → Bool
is_among n [] = false
is_among n (p ∷ ps) = p.owner == n || is_among n ps

-- Those who are chosen are eligible, at most `room` of them; one who is eligible is chosen, or `room`
-- others are, who all have as many votes at least.
abbrev pub Chosen : ℕ → List ProducerInfo → ProducerInfo → Type 0
Chosen room chosen q =
    (is_among q.owner chosen ≡ true)
    ⊎ ((size chosen ≡ room) × All (λ p. q.total_votes ≤ℤ p.total_votes) chosen)

pub record Best (is_savanna : Bool) (finalizers : Dict FinalizerInfo) (room : ℕ)
    (ps : List ProducerInfo) (top : List TopProducer) : Type 0 where
  pub chosen : List ProducerInfo
  pub same : top ≡ map top_producer chosen
  pub number : size chosen ≤ room
  pub good : All (λ p. eligible is_savanna finalizers p ≡ true) chosen
  pub best : All (λ q. eligible is_savanna finalizers q ≡ true → Chosen room chosen q) ps

module _ (is_savanna : Bool) (finalizers : Dict FinalizerInfo) where
  stops :
      (room : ℕ) (p q : ProducerInfo)
      → VotesFit p
      → VotesFit q
      → by_votes p ≤ by_votes q
      → goes_on room p ≡ false
      → eligible is_savanna finalizers q ≡ true
      → 0 ≡ room
  stops room p q fp fq le stop e = ground (arith, in_order p q fp fq le)

  grows :
      (room : ℕ) (chosen : List ProducerInfo) (p q : ProducerInfo)
      → goes_on room p ≡ true
      → VotesFit p
      → (by_votes p ≤ by_votes q) × VotesFit q
      → (eligible is_savanna finalizers q ≡ true → Chosen (room - 1) chosen q)
      → eligible is_savanna finalizers q ≡ true
      → Chosen room (p ∷ chosen) q
  grows room chosen p q go fp (le, fq) before e = elim (before e) [
    | inl among ↦ inl (ground (arith, among))
    | inr (full, fewer) ↦
        inr (ground (arith, full, go), ((in_order p q fp fq le (ground (arith, e))).1, fewer))
  ]

  -- What the loop chooses from the sorted producers.
  pub select-Best :
      (room : ℕ) (ps : List ProducerInfo)
      → Sorted by_votes ps
      → All VotesFit ps
      → Best is_savanna finalizers room ps (select is_savanna finalizers room ps).top_producers
  unfolding select
  select-Best room [] h f = record {
    chosen = [];
    same = refl;
    number = omega arith;
    good = tt;
    best = tt;
  }
  select-Best room (p ∷ rest) h f = elim (Bool-cases (goes_on room p)) [
    | inr stop ↦
        rw (stop, select)
          record {
            chosen = [];
            same = refl;
            number = omega arith;
            good = tt;
            best = (
              λ e. inr (stops room p p f.0 f.0 (omega arith) stop e, tt),
              All-zip _ _ _ rest (λ q le fq e. inr (stops room p q f.0 fq le stop e, tt)) h.0 f.1,
            );
          }
    | inl go ↦ elim (Option-cases (entry is_savanna finalizers p)) [
      | inl e ↦
          let r = select-Best room rest h.1 f.1 in
          rw (go, select)
            (rw e record {
              chosen = r.chosen;
              same = r.same;
              number = r.number;
              good = r.good;
              best = (λ el. ground (arith, e), r.best);
            })
      | inr (fs, e) ↦
          let r = select-Best (room - 1) rest h.1 f.1 in
          rw (go, select)
            (rw e record {
              chosen = p ∷ r.chosen;
              same = ap (λ ts. top_producer p ∷ ts) r.same;
              number = ground (arith, go, r.number);
              good = (ground (arith, go, e), r.good);
              best = (
                λ el. inl (ground arith),
                All-zip _ _ _ rest (λ q x y. grows room r.chosen p q go f.0 x y)
                    (All-zip _ _ _ rest (λ q le fq. (le, fq)) h.0 f.1) r.best,
              );
            })
    ]
  ]

-- The loop of `switchtosvnn` proposes the finalizers that the loop of `update_elected_producers`
-- proposes under Savanna, when it wants the same number of producers.
pub collect-select :
    (finalizers : Dict FinalizerInfo) (room : ℕ) (ps : List ProducerInfo)
    → collect finalizers room ps ≡ (select true finalizers room ps).proposed_finalizers
unfolding collect select entry
collect-select finalizers room [] = refl
collect-select finalizers room (p ∷ rest) =
    ground (arith, collect-select finalizers room rest, collect-select finalizers (room - 1) rest)
