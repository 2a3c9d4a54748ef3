-- ===== src/System/OnBlock/Phases.antt =====
-- About `onblock` of contracts/flon.system/src/producer_pay.cpp: the ways through it.
use flon_contracts.Base.{
  ◌⊎◌, List, ltb, ◌||◌, ℕ, ◌<◌, ◌≡◌, Option, ok, arith, ◌==◌, Bool-cases, Result-cases, inl, inr,
}
use flon_contracts.Chain.{AssetOps, Context}
use flon_contracts.System.BlockInfo.{BlockInfoTable, add_to_blockinfo_table}
use flon_contracts.System.Schedule.{TopProducer, update_elected_producers}
use flon_contracts.System.OnBlock.{
  BlockHeader, ProductionState, slots_since, blocks_per_day, reward_producer, close_auction,
  onblock,
}

abbrev pub scheduled : (List TopProducer → Option ℕ) → ℕ → ProductionState → ProductionState
scheduled host slot s = record s { schedule = update_elected_producers host slot s.schedule }

module _ ⦃ops : AssetOps⦄ where
  -- What a successful `onblock` has gone through: it ends after the table of blocks; or it rewards the
  -- producer and ends there, after a new schedule, or after the auction that it may close.
  pub onblock_phases :
      (to_time_point : ℕ → ℕ) (host : List TopProducer → Option ℕ) (c : Context) (h : BlockHeader)
      (s t : ProductionState)
      → onblock to_time_point host c h s ≡ ok t
      → ((table : BlockInfoTable) × (record s { blockinfo = table } ≡ t))
        ⊎ ((table : BlockInfoTable) × (s2 : ProductionState) × (reward_producer
                (to_time_point h.timestamp)
                h.producer
                (record s { blockinfo = table })
              ≡ ok s2)
            × ((s2 ≡ t)
                ⊎ (scheduled host h.timestamp s2 ≡ t)
                ⊎ ((blocks_per_day < slots_since s2.last_name_close h.timestamp)
                    × (close_auction c h.timestamp (scheduled host h.timestamp s2) ≡ ok t))))
  unfolding onblock
  onblock_phases to_time_point host c h s t done =
      let now = to_time_point h.timestamp in
      let activated = s.election.election_activated_time in
      elim (Result-cases (add_to_blockinfo_table h.previous_height h.timestamp s.blockinfo)) [
        | inr (m, e) ↦ ground arith
        | inl (table, e) ↦ elim (Bool-cases (activated == 0 || ltb now activated)) [
          | inl f ↦ inl (table, ground arith)
          | inr f ↦
              elim (Result-cases
                (reward_producer now h.producer (record s { blockinfo = table }))) [
                  | inr (m, g) ↦ ground arith
                  | inl (s2, g) ↦ inr (
                    table,
                    s2,
                    g,
                    elim (Bool-cases (
                        ltb 120
                          (slots_since s2.schedule.last_producer_schedule_update h.timestamp))) [
                            | inr i ↦ inl (ground arith)
                            | inl i ↦
                                elim (Bool-cases (
                                  ltb blocks_per_day
                                    (slots_since s2.last_name_close h.timestamp))) [
                                      | inr j ↦ inr (inl (ground arith))
                                      | inl j ↦ inr (inr (ground arith, ground arith))
                                    ]
                          ],
                  )
                ]
        ]
      ]
