-- ===== src/System/Election.antt =====
-- contracts/flon.system/src/producer_pay.cpp: the configuration of the election and of the rewards.
use flon_contracts.Base.{
  ℕ, ◌≤◌, ◌<◌, ◌≡◌, ◌⊎◌, Bool, ◌||◌, ltb, leb, leb_ℤ, ◌==◌, pos, Result, ok, ◌>>◌, check,
  if◌then◌else◌, arith,
}
use flon_contracts.Chain.{Symbol, symbol_eq, Asset, AssetOps, Context}

-- The fields of the global state that `cfgelection` reads and writes; a time that has not been set is 0.
pub record ElectionConfig : Type 0 where
  pub core : Symbol
  pub election_activated_time : ℕ
  pub reward_started_time : ℕ
  pub initial_rewards_per_block : Asset

abbrev settable : ℕ → ℕ → Bool
settable time now = time == 0 || ltb now time

module _ ⦃ops : AssetOps⦄ where
  unfoldable pub cfgelection : Context → ℕ → ℕ → Asset → ElectionConfig → Result ElectionConfig
  cfgelection c activated started rewards s = do
    check (c.has_auth c.self) "missing authority"
    check (ops.symbol_is_valid s.core) "system contract must first be initialized"
    check (symbol_eq rewards.symbol s.core) "reward symbol mismatch with core symbol"
    check (leb_ℤ (pos 0) rewards.amount) "reward can not be negative"
    (if settable s.election_activated_time c.now
        then check (ltb c.now activated) "election activated time must larger than now"
        else check (activated == s.election_activated_time)
            "can not change election activated time after election has already been activated")
    check (leb activated started) "reward start time can not less than election activated time"
    (if settable s.reward_started_time c.now
        then check (ltb c.now started) "reward start time must larger than now"
        else check (started == s.reward_started_time)
            "can not change reward start timee after reward has already been started")
    ok (record s {
      election_activated_time = activated;
      reward_started_time = started;
      initial_rewards_per_block = rewards;
    })

  -- A `cfgelection` that succeeds sets the given times, the start of the rewards not before the
  -- election. A time that had been set and has been reached stays as it was; one that had never been
  -- set, or had not been reached, is set to a time after now.
  pub cfgelection_frozen :
      (c : Context) (activated started : ℕ) (rewards : Asset) (s t : ElectionConfig)
      → cfgelection c activated started rewards s ≡ ok t
      → (t.election_activated_time ≡ activated)
        × (t.reward_started_time ≡ started)
        × (activated ≤ started)
        × ((0 < s.election_activated_time) × (s.election_activated_time ≤ c.now)
            → activated ≡ s.election_activated_time)
        × ((0 < s.reward_started_time) × (s.reward_started_time ≤ c.now)
            → started ≡ s.reward_started_time)
        × ((s.election_activated_time ≡ 0) ⊎ (c.now < s.election_activated_time)
            → c.now < activated)
        × ((s.reward_started_time ≡ 0) ⊎ (c.now < s.reward_started_time) → c.now < started)
  unfolding cfgelection
  cfgelection_frozen c activated started rewards s t h = (
    ground arith,
    ground arith,
    ground arith,
    λ set. ground (arith, set),
    λ set. ground (arith, set),
    λ later. ground (arith, later),
    λ later. ground (arith, later),
  )
