-- ===== src/System/OnBlock/Rewards.antt =====
-- About the rewards of blocks in contracts/flon.system/src/producer_pay.cpp.
use flon_contracts.Base.{
  ℕ, ◌+◌, ◌/◌, ◌^◌, ◌<◌, ◌≤◌, ◌≡◌, refl, sym, subst, false, ℤ, pos, negsuc, ◌+ℤ◌, ◌≤ℤ◌, i64, Fits,
  wrap-Fits, int_laws, some, ok, pos-+, ◌∙◌, arith, [], lookup, insert, lookup-insert, ap, ◌==◌,
  if◌then◌else◌, lookup_or, sum_by, sum_by-insert, le-sum_by, AllRows, AllRows-insert,
  AllRows-lookup_or,
}
use native.Mathlib.Nat.{div-le_self}
use flon_contracts.Chain.{asset}
use flon_contracts.System.Voting.{ProducerInfo}
use flon_contracts.System.OnBlock.{ProductionState, period, reward_producer}
use flon_contracts.System.OnBlock.Power.{quotient-power}

abbrev pub unclaimed : ProducerInfo → ℤ
unclaimed p = p.unclaimed_rewards.amount

abbrev Earned : ProducerInfo → Type 0
Earned p = pos 0 ≤ℤ unclaimed p

-- The totals are the sum of what the producers have not claimed.
pub record Unclaimed (s : ProductionState) : Type 0 where
  pub sum : sum_by unclaimed s.schedule.producers ≡ s.total_unclaimed_rewards
  pub produced : s.total_produced_rewards ≡ s.total_unclaimed_rewards
  pub nonneg : AllRows (λ p. pos 0 ≤ℤ unclaimed p) s.schedule.producers

abbrev blank : ProducerInfo
blank = record {
  owner = 0;
  total_votes = pos 0;
  producer_key = 0;
  is_active = false;
  url = "";
  unclaimed_rewards = asset (pos 0) (record { code = 0; precision = 0 });
  last_claim_time = 0;
  location = 0;
  producer_authority = record { threshold = 0; keys = [] };
  reward_shared_ratio = 0;
}

abbrev paid : ℤ → ProducerInfo → ProducerInfo
paid r p = record p {
  unclaimed_rewards = record p.unclaimed_rewards { amount = i64 (unclaimed p +ℤ r) };
}

-- The row with `r` more to be claimed.
abbrev pub credited : ℤ → ProducerInfo → ProducerInfo
credited r p = record p {
  unclaimed_rewards = record p.unclaimed_rewards { amount = unclaimed p +ℤ r };
}

abbrev rewarded : ℕ → ℤ → ProducerInfo → ProductionState → ProductionState
rewarded producer r p s = record s {
  schedule = record s.schedule { producers = insert producer (paid r p) s.schedule.producers };
  total_produced_rewards = i64 (s.total_produced_rewards +ℤ r);
  total_unclaimed_rewards = i64 (s.total_unclaimed_rewards +ℤ r);
}

no_wrap :
    (x : ℤ) (r m : ℕ) → pos 0 ≤ℤ x → x ≤ℤ pos m → m + r < 2 ^ 63 → i64 (x +ℤ pos r) ≡ x +ℤ pos r
unfolding ◌+ℤ◌
no_wrap x r m nonneg le fits = wrap-Fits (2 ^ 63) (x +ℤ pos r) (bounds x nonneg le)
  where
    bounds : (x : ℤ) → pos 0 ≤ℤ x → x ≤ℤ pos m → Fits (2 ^ 63) (x +ℤ pos r)
    bounds (pos n) nonneg le = ground (arith, fits)
    bounds (negsuc n) nonneg le = ground arith

-- Where the producers' amounts add up to `m`, one that is in the table gets `r` without a wrap.
rewarded-Unclaimed :
    (producer r m : ℕ) (p : ProducerInfo) (s : ProductionState)
    → lookup producer s.schedule.producers ≡ some p
    → s.total_unclaimed_rewards ≡ pos m
    → m + r < 2 ^ 63
    → Unclaimed s
    → Unclaimed (rewarded producer (pos r) p s)
      × ((rewarded producer (pos r) p s).total_unclaimed_rewards ≡ pos (m + r))
      × ((k : ℕ)
          → lookup k (rewarded producer (pos r) p s).schedule.producers
            ≡ (if k == producer then some (credited (pos r) p) else lookup k s.schedule.producers))
rewarded-Unclaimed producer r m p s at total fits u =
    let d = s.schedule.producers in
    let here : lookup_or blank producer d ≡ p = rw (at, lookup_or) refl in
    let le : unclaimed p ≤ℤ pos m =
      subst (λ q. unclaimed q ≤ℤ pos m) here
        (subst (λ t. unclaimed (lookup_or blank producer d) ≤ℤ t) (u.sum ∙ total)
          (le-sum_by unclaimed blank producer d refl u.nonneg)) in
    let earned : pos 0 ≤ℤ unclaimed p =
      subst (λ q. pos 0 ≤ℤ unclaimed q) here
        (AllRows-lookup_or (λ q. pos 0 ≤ℤ unclaimed q) blank producer d (omega arith) u.nonneg) in
    let row : unclaimed (paid (pos r) p) ≡ unclaimed p +ℤ pos r =
      no_wrap (unclaimed p) r m earned le fits in
    let total_word : i64 (s.total_unclaimed_rewards +ℤ pos r) ≡ pos m +ℤ pos r =
      rw total (no_wrap (pos m) r m (omega arith) (omega arith) fits) in
    let moved = sum_by-insert unclaimed blank producer (paid (pos r) p) d refl in
    (
      record {
        sum =
            total_word_sum (sum_by unclaimed (insert producer (paid (pos r) p) d))
              (sum_by unclaimed d) (unclaimed p) (unclaimed (paid (pos r) p)) (pos m) (pos r)
              (subst
                (λ q.
                  sum_by unclaimed (insert producer (paid (pos r) p) d) +ℤ unclaimed q
                  ≡ sum_by unclaimed d +ℤ unclaimed (paid (pos r) p))
                here moved)
              row (u.sum ∙ total)
            ∙ sym total_word;
        produced = rw u.produced refl;
        nonneg =
            AllRows-insert (λ q. pos 0 ≤ℤ unclaimed q) producer (paid (pos r) p) d
              (rw row (omega (int_laws, earned))) u.nonneg;
      },
      total_word ∙ pos-+ m r,
      λ k.
          subst
            (λ y.
              lookup k (insert producer (paid (pos r) p) d)
              ≡ (if k == producer then some y else lookup k d))
            (ap (λ x. record p { unclaimed_rewards = record p.unclaimed_rewards { amount = x } })
              row)
            (lookup-insert producer k (paid (pos r) p) d),
    )
  where
    total_word_sum : (a b x y m r : ℤ) → a +ℤ x ≡ b +ℤ y → y ≡ x +ℤ r → b ≡ m → a ≡ m +ℤ r
    total_word_sum a b x y m r e f g = grind (int_laws, e, f, g)

-- A registered producer of a block after the start of the rewards gets the initial reward, halved
-- for every period that is over, in its own row, and no other row changes; the totals grow alike and
-- stay the sum of what the producers have not claimed.
-- This holds in the first 63 periods, while the totals stay below 2 ^ 63.
pub reward_producer-Unclaimed :
    (now producer initial m : ℕ) (p : ProducerInfo) (s : ProductionState)
    → Unclaimed s
    → s.total_unclaimed_rewards ≡ pos m
    → s.election.initial_rewards_per_block.amount ≡ pos initial
    → lookup producer s.schedule.producers ≡ some p
    → 0 < s.election.reward_started_time
    → s.election.reward_started_time ≤ now
    → period now s.election.reward_started_time < 63
    → m + initial < 2 ^ 63
    → (t : ProductionState) × (reward_producer now producer s ≡ ok t)
      × Unclaimed t
      × (t.total_unclaimed_rewards
          ≡ pos (m + initial / 2 ^ period now s.election.reward_started_time))
      × ((k : ℕ)
          → lookup k t.schedule.producers ≡ (
              if k == producer
              then some (credited (pos (initial / 2 ^ period now s.election.reward_started_time)) p)
              else lookup k s.schedule.producers))
unfolding reward_producer
reward_producer-Unclaimed now producer initial m p s u total init at set started small fits =
    let k = period now s.election.reward_started_time in
    let le = div-le_self initial (2 ^ k) in
    let q = quotient-power initial k small in
    let (v, w, rows) =
      rewarded-Unclaimed producer (initial / 2 ^ k) m p s at total (omega (arith, le, fits)) u in
    (
      rewarded producer (pos (initial / 2 ^ k)) p s,
      ground (arith, at, init, q, set, started),
      v,
      w,
      rows,
    )
