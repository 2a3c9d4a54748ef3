-- ===== src/System/OnBlock.antt =====
-- contracts/flon.system/src/producer_pay.cpp: what the system contract does at every block.
pub mod Power
pub mod Rewards
pub mod Phases
pub mod Totals
pub mod Index
pub mod Auctions
mod Tests
use flon_contracts.Base.{
  ℕ, zero, suc, ◌+◌, ◌-◌, ◌*◌, ◌/◌, ◌%◌, ◌^◌, Bool, not, ◌&&◌, ◌||◌, List, [], ◌∷◌, ◌++◌, Option,
  none, some, ltb, leb, ◌==◌, ℤ, pos, negsuc, ◌+ℤ◌, ◌-ℤ◌, ◌*ℤ◌, div_pos, ltb_ℤ, i64, if◌then◌else◌,
  Result, ok, err, ◌>>=◌, ◌>>◌, check, Dict, lookup, insert, sort_by,
}
use flon_contracts.Chain.{Asset, AssetOps, Context}
use flon_contracts.System.Voting.{ProducerInfo}
use flon_contracts.System.BlockInfo.{BlockInfoTable, add_to_blockinfo_table}
use flon_contracts.System.NameBids.{NameBid, BidState}
use flon_contracts.System.Election.{ElectionConfig}
use flon_contracts.System.Schedule.{ScheduleState, TopProducer, u64, update_elected_producers}

abbrev pub seconds_per_day : ℕ
seconds_per_day = 24 * 3600

abbrev pub reward_halving_period_seconds : ℕ
reward_halving_period_seconds = 5 * (365 * 24 * 3600)

abbrev pub blocks_per_day : ℕ
blocks_per_day = 2 * seconds_per_day

-- "flon.names"_n
abbrev pub names_account : ℕ
names_account = 6658906630548488192

-- The fields of the block header that `onblock` reads. `block_timestamp` is in slots of half a
-- second; of the previous block's id there is the height in it.
pub record BlockHeader : Type 0 where
  pub timestamp : ℕ
  pub producer : ℕ
  pub previous_height : ℕ

pub data FeeAction : Type 0 where
  system_fees logsystemfee : ℕ → Asset → FeeAction

pub record ProductionState : Type 0 where
  pub blockinfo : BlockInfoTable
  pub election : ElectionConfig
  pub schedule : ScheduleState
  pub auctions : BidState
  pub last_name_close : ℕ
  pub total_produced_rewards : ℤ
  pub total_unclaimed_rewards : ℤ
  pub fees : List FeeAction

-- The loop of `power`, with what has been multiplied so far.
unfoldable pub power_loop : ℤ → ℤ → ℕ → ℤ
power_loop ret base zero = ret
power_loop ret base (suc exp) = power_loop (i64 (ret *ℤ base)) base exp

unfoldable pub power : ℤ → ℕ → ℤ
power base exp = power_loop (pos 1) base exp

-- `/` on `int64_t`; a division by zero ends the action.
unfoldable pub quotient : ℤ → ℤ → Result ℤ
quotient a (pos n) = if n == 0 then err "integer divide by zero" else ok (div_pos a n)
quotient a (negsuc n) = ok (pos 0 -ℤ div_pos a (n + 1))

unfoldable pub period : ℕ → ℕ → ℕ
period now started = (now - started) / 1000000 / reward_halving_period_seconds

unfoldable pub reward_producer : ℕ → ℕ → ProductionState → Result ProductionState
reward_producer now producer s =
    let started = s.election.reward_started_time in
    elim (lookup producer s.schedule.producers) as (λ _. Result ProductionState) [
      | none ↦ ok s
      | some p ↦ elim (not (started == 0) && leb started now) as (λ _. Result ProductionState) [
        | Bool.false ↦ ok s
        | Bool.true ↦ do
          rewards_per_block ←
              quotient s.election.initial_rewards_per_block.amount
                (power (pos 2) (period now started))
          let p' = record p {
            unclaimed_rewards = record p.unclaimed_rewards {
              amount = i64 (p.unclaimed_rewards.amount +ℤ rewards_per_block);
            };
          }
          ok (record s {
            schedule = record s.schedule { producers = insert producer p' s.schedule.producers };
            total_produced_rewards = i64 (s.total_produced_rewards +ℤ rewards_per_block);
            total_unclaimed_rewards = i64 (s.total_unclaimed_rewards +ℤ rewards_per_block);
          })
      ]
    ]

-- `name_bid::by_high_bid`
unfoldable pub by_high_bid : NameBid → ℕ
by_high_bid b = u64 (i64 (pos 0 -ℤ b.high_bid))

-- `idx.lower_bound` on the index `highbid`, whose rows stand with their primary keys.
unfoldable pub lower_bound : ℕ → List (ℕ × NameBid) → Option (ℕ × NameBid)
lower_bound bound [] = none
lower_bound bound (e ∷ rest) =
    let later = lower_bound bound rest in if leb bound (by_high_bid e.1) then some e else later

unfoldable pub highest_bid : Dict NameBid → Option (ℕ × NameBid)
highest_bid bids =
    lower_bound (2 ^ 63 - 1) (sort_by (λ e. by_high_bid e.1) (sort_by (λ e. e.0) bids))

abbrev pub slots_since : ℕ → ℕ → ℕ
slots_since last slot = (slot + 2 ^ 32 - last) % 2 ^ 32

module _ ⦃ops : AssetOps⦄ where
  unfoldable pub close_auction : Context → ℕ → ProductionState → Result ProductionState
  close_auction c timestamp s =
      elim (highest_bid s.auctions.bids) as (λ _. Result ProductionState) [
        | none ↦ ok s
        | some (k, highest) ↦
            elim (ltb_ℤ (pos 0) highest.high_bid
                && ltb (seconds_per_day * 1000000) (c.now - highest.last_bid_time))
              as (λ _. Result ProductionState) [
                | Bool.false ↦ ok s
                | Bool.true ↦ do
                  check (ops.symbol_is_valid s.auctions.core)
                      "system contract must first be initialized"
                  price ← ops.make highest.high_bid s.auctions.core
                  let closed = record highest { high_bid = i64 (pos 0 -ℤ highest.high_bid) }
                  ok (record s {
                    last_name_close = timestamp;
                    auctions = record s.auctions { bids = insert k closed s.auctions.bids };
                    fees =
                        s.fees
                        ++ FeeAction.system_fees names_account price
                          ∷ FeeAction.logsystemfee names_account price
                          ∷ [];
                  })
              ]
      ]

  -- `to_time_point` is the library's conversion of `block_timestamp`, in microseconds.
  unfoldable pub onblock :
      (ℕ → ℕ)
      → (List TopProducer → Option ℕ)
      → Context
      → BlockHeader
      → ProductionState
      → Result ProductionState
  onblock to_time_point set_proposed_producers c h s = do
    check (c.has_auth c.self) "missing authority"
    table ← add_to_blockinfo_table h.previous_height h.timestamp s.blockinfo
    let s1 = record s { blockinfo = table }
    let now = to_time_point h.timestamp
    let activated = s.election.election_activated_time
    elim (activated == 0 || ltb now activated) as (λ _. Result ProductionState) [
      | Bool.true ↦ ok s1
      | Bool.false ↦ do
        s2 ← reward_producer now h.producer s1
        elim (ltb 120 (slots_since s2.schedule.last_producer_schedule_update h.timestamp))
            as (λ _. Result ProductionState) [
              | Bool.false ↦ ok s2
              | Bool.true ↦
                  let s3 = record s2 {
                    schedule =
                        update_elected_producers set_proposed_producers h.timestamp s2.schedule;
                  } in
                  elim (ltb blocks_per_day (slots_since s3.last_name_close h.timestamp))
                    as (λ _. Result ProductionState) [
                      | Bool.false ↦ ok s3
                      | Bool.true ↦ close_auction c h.timestamp s3
                    ]
            ]
    ]
