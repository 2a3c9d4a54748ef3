-- ===== src/System/OnBlock/Tests.antt =====
-- contracts/flon.system/src/producer_pay.cpp at concrete inputs.
use flon_contracts.Base.{
  lookup, if◌then◌else◌, ◌==◌, some, ℕ, ◌+◌, ◌*◌, ◌/◌, ◌^◌, ◌<◌, ◌≡◌, ◌⊎◌, refl, true, false, none,
  [], ◌∷◌, List, Option, ok, ℤ, pos, negsuc, wrap, ◌+ℤ◌, ◌-ℤ◌, ◌*ℤ◌, div_pos, arith, sort_by,
  insert_by,
}
use flon_contracts.Chain.{Symbol, asset, Context}
use flon_contracts.Chain.Instance.{checked_assets, valid_symbol, made}
use flon_contracts.System.Voting.{ProducerInfo}
use flon_contracts.System.Finalizers.{is_savanna_consensus, get_last_proposed_finalizers}
use flon_contracts.System.BlockInfo.{add_to_blockinfo_table, emplace, prune}
use flon_contracts.System.Schedule.{
  TopProducer, update_elected_producers, by_votes, prototalvote, entry, select, u64,
}
use flon_contracts.System.OnBlock.{
  FeeAction, names_account, BlockHeader, ProductionState, power, power_loop, quotient, period,
  reward_producer, by_high_bid, lower_bound, highest_bid, close_auction, onblock, slots_since,
  blocks_per_day,
}
use flon_contracts.System.OnBlock.Rewards.{credited, Unclaimed, reward_producer-Unclaimed}
use flon_contracts.System.OnBlock.Totals.{onblock-Unclaimed}
use flon_contracts.System.OnBlock.Auctions.{Closed, onblock-Closed}

abbrev flon : Symbol
flon = record { code = 1313819718; precision = 8 }

abbrev at_block : Context
at_block = record {
  has_auth = λ _. true;
  is_account = λ _. false;
  self = 9;
  now = 200000000000;
  now_sec = 200000;
  now_slot = 400000;
}

abbrev producer : ℤ → ProducerInfo
producer unclaimed = record {
  owner = 7;
  total_votes = pos 5;
  producer_key = 1;
  is_active = true;
  url = "";
  unclaimed_rewards = asset unclaimed flon;
  last_claim_time = 0;
  location = 0;
  producer_authority = record { threshold = 1; keys = [] };
  reward_shared_ratio = 0;
}

abbrev header : BlockHeader
header = record { timestamp = 400000; producer = 7; previous_height = 41 }

abbrev to_time_point : ℕ → ℕ
to_time_point slot = slot * 500000

abbrev refuses : List TopProducer → Option ℕ
refuses schedule = none

abbrev before : ProductionState
before = record {
  blockinfo = [];
  election = record {
    core = flon;
    election_activated_time = 100;
    reward_started_time = 200;
    initial_rewards_per_block = asset (pos 800) flon;
  };
  schedule = record {
    last_producer_schedule_update = 0;
    last_producer_schedule_size = 2;
    producers = (7, producer (pos 30)) ∷ [];
    finality = record {
      finalizer_keys = [];
      finalizers = [];
      last_prop_finalizers = none;
      fin_key_id_generator = none;
      policies = [];
    };
    schedules = [];
  };
  auctions = record {
    core = flon;
    bids =
        (11, record { newname = 11; high_bidder = 7; high_bid = pos 100; last_bid_time = 1000 })
        ∷ (12, record { newname = 12; high_bidder = 8; high_bid = pos 300; last_bid_time = 1000 })
        ∷ [];
    refunds = [];
    sent = [];
  };
  last_name_close = 0;
  total_produced_rewards = pos 30;
  total_unclaimed_rewards = pos 30;
  fees = [];
}

before-Unclaimed : Unclaimed before
unfolding ◌+ℤ◌
before-Unclaimed = record { sum = refl; produced = refl; nonneg = (omega arith, tt) }

reward_producer-Unclaimed_example :
    (t : ProductionState) × (reward_producer 300 7 before ≡ ok t)
    × Unclaimed t
    × (t.total_unclaimed_rewards ≡ pos (30 + 800 / 2 ^ period 300 200))
    × ((k : ℕ)
        → lookup k t.schedule.producers ≡ (
            if k == 7
            then some (credited (pos (800 / 2 ^ period 300 200)) (producer (pos 30)))
            else lookup k before.schedule.producers))
unfolding period
reward_producer-Unclaimed_example =
    reward_producer-Unclaimed 300 7 800 30 (producer (pos 30)) before before-Unclaimed refl refl
      refl (omega arith) (omega arith) (omega arith) (omega arith)

abbrev after : ProductionState
after = record before {
  blockinfo = record { version = 0; block_height = 42; block_timestamp = 400000 } ∷ [];
  schedule = record before.schedule {
    last_producer_schedule_update = 400000;
    producers = (7, producer (pos 830)) ∷ [];
  };
  auctions = record before.auctions {
    bids =
        (11, record { newname = 11; high_bidder = 7; high_bid = pos 100; last_bid_time = 1000 })
        ∷ (
          12,
          record { newname = 12; high_bidder = 8; high_bid = negsuc 299; last_bid_time = 1000 },
        )
        ∷ [];
  };
  last_name_close = 400000;
  total_produced_rewards = pos 830;
  total_unclaimed_rewards = pos 830;
  fees =
      FeeAction.system_fees names_account (asset (pos 300) flon)
      ∷ FeeAction.logsystemfee names_account (asset (pos 300) flon)
      ∷ [];
}

closes : onblock to_time_point refuses at_block header before ≡ ok after
unfolding onblock add_to_blockinfo_table emplace prune reward_producer quotient power power_loop
    period close_auction highest_bid lower_bound by_high_bid update_elected_producers
    is_savanna_consensus get_last_proposed_finalizers prototalvote by_votes u64 select entry sort_by
    insert_by checked_assets valid_symbol made wrap ◌+ℤ◌ ◌-ℤ◌ ◌*ℤ◌ div_pos
closes = refl

soon : period (to_time_point 400000) 200 < 63
unfolding period
soon = omega arith

onblock-Unclaimed_example : Unclaimed after
onblock-Unclaimed_example =
    onblock-Unclaimed to_time_point refuses at_block header 800 30 before after before-Unclaimed
      refl refl soon (omega arith) closes

onblock-Closed_example :
    ((after.auctions ≡ before.auctions) × (after.fees ≡ before.fees))
    ⊎ ((blocks_per_day < slots_since 0 400000)
        × (after.last_name_close ≡ 400000)
        × Closed before.auctions before.fees at_block.now after)
onblock-Closed_example =
    onblock-Closed to_time_point refuses at_block header before after (refl, (refl, tt))
      ((omega arith, omega arith), ((omega arith, omega arith), tt)) closes
