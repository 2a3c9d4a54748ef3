-- ===== src/System/OnBlock/Totals.antt =====
-- About `onblock` of contracts/flon.system/src/producer_pay.cpp: the totals of the rewards.
use flon_contracts.Base.{
  List, ℕ, ◌+◌, ◌^◌, ◌<◌, ◌≡◌, refl, sym, subst, not, ◌&&◌, pos, Option, ok, ◌∙◌, arith, ◌==◌, leb,
  lookup, Bool-cases, Option-cases, Result-cases, inl, inr,
}
use flon_contracts.Chain.{AssetOps, Context}
use flon_contracts.System.Schedule.{ScheduleState, TopProducer, update_elected_producers}
use flon_contracts.System.OnBlock.{
  BlockHeader, ProductionState, period, reward_producer, close_auction, onblock, highest_bid,
}
use flon_contracts.System.OnBlock.Rewards.{Unclaimed, reward_producer-Unclaimed}
use flon_contracts.System.OnBlock.Phases.{scheduled, onblock_phases}

reward_any :
    (now producer initial m : ℕ) (s t : ProductionState)
    → Unclaimed s
    → s.total_unclaimed_rewards ≡ pos m
    → s.election.initial_rewards_per_block.amount ≡ pos initial
    → period now s.election.reward_started_time < 63
    → m + initial < 2 ^ 63
    → reward_producer now producer s ≡ ok t
    → Unclaimed t
unfolding reward_producer
reward_any now producer initial m s t u total init small fits h =
    let started = s.election.reward_started_time in
    elim (Option-cases (lookup producer s.schedule.producers)) [
      | inl e ↦ subst Unclaimed (ground arith) u
      | inr (p, e) ↦ elim (Bool-cases (not (started == 0) && leb started now)) [
        | inr f ↦ subst Unclaimed (ground arith) u
        | inl f ↦
            let (v, done, kept, _, _) =
              reward_producer-Unclaimed now producer initial m p s u total init e (ground arith)
                (ground arith) small fits in
            subst Unclaimed (ground arith) kept
      ]
    ]

record SameRewards (s t : ProductionState) : Type 0 where
  pub producers : t.schedule.producers ≡ s.schedule.producers
  pub produced : t.total_produced_rewards ≡ s.total_produced_rewards
  pub unclaimed : t.total_unclaimed_rewards ≡ s.total_unclaimed_rewards

SameRewards-Unclaimed : (s t : ProductionState) → SameRewards s t → Unclaimed s → Unclaimed t
SameRewards-Unclaimed s t e u = record {
  sum = rw (e.producers, e.unclaimed) u.sum;
  produced = e.produced ∙ u.produced ∙ sym e.unclaimed;
  nonneg = rw e.producers u.nonneg;
}

update_producers :
    (host : List TopProducer → Option ℕ) (time : ℕ) (s : ScheduleState)
    → (update_elected_producers host time s).producers ≡ s.producers
unfolding update_elected_producers
update_producers host time s = ground arith

module _ ⦃ops : AssetOps⦄ where
  close_auction-SameRewards :
      (c : Context) (slot : ℕ) (s t : ProductionState)
      → close_auction c slot s ≡ ok t
      → SameRewards s t
  unfolding close_auction
  close_auction-SameRewards c slot s t h = elim (Option-cases (highest_bid s.auctions.bids)) [
    | inl e ↦ record { producers = ground arith; produced = ground arith; unclaimed = ground arith }
    | inr ((k, b), e) ↦ elim (Result-cases (ops.make b.high_bid s.auctions.core)) [
      | inl (price, f) ↦ record {
        producers = ground arith;
        produced = ground arith;
        unclaimed = ground arith;
      }
      | inr (m, f) ↦ record {
        producers = ground arith;
        produced = ground arith;
        unclaimed = ground arith;
      }
    ]
  ]

  -- After a block the totals of the rewards are the sum of what the producers have not claimed, if
  -- they were so before, in the first 63 periods and while the totals stay below 2 ^ 63.
  pub onblock-Unclaimed :
      (to_time_point : ℕ → ℕ) (host : List TopProducer → Option ℕ) (c : Context) (h : BlockHeader)
      (initial m : ℕ) (s t : ProductionState)
      → Unclaimed s
      → s.total_unclaimed_rewards ≡ pos m
      → s.election.initial_rewards_per_block.amount ≡ pos initial
      → period (to_time_point h.timestamp) s.election.reward_started_time < 63
      → m + initial < 2 ^ 63
      → onblock to_time_point host c h s ≡ ok t
      → Unclaimed t
  unfolding onblock
  onblock-Unclaimed to_time_point host c h initial m s t u total init small fits done =
      elim (onblock_phases to_time_point host c h s t done) [
        | inl (table, e) ↦ SameRewards-Unclaimed s t (ground arith) u
        | inr (table, s2, reward, last) ↦
            let now = to_time_point h.timestamp in
            let s1 = record s { blockinfo = table } in
            let before : Unclaimed s1 = record {
              sum = u.sum;
              produced = u.produced;
              nonneg = u.nonneg;
            } in
            let u2 =
              reward_any now h.producer initial m s1 s2 before total init small fits reward in
            let u3 =
              SameRewards-Unclaimed s2 (scheduled host h.timestamp s2)
                record {
                  producers = update_producers host h.timestamp s2.schedule;
                  produced = refl;
                  unclaimed = refl;
                }
                u2 in
            elim last [
              | inl e ↦ subst Unclaimed e u2
              | inr (inl e) ↦ subst Unclaimed e u3
              | inr (inr (_, closes)) ↦
                  SameRewards-Unclaimed (scheduled host h.timestamp s2) t
                    (close_auction-SameRewards c h.timestamp (scheduled host h.timestamp s2) t
                      closes)
                    u3
            ]
      ]
