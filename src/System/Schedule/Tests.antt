-- ===== src/System/Schedule/Tests.antt =====
-- The choice of the producers of contracts/flon.system at concrete inputs.
use flon_contracts.Base.{
  ℕ, ◌≡◌, ◌⊎◌, refl, true, false, Bool, Option, none, wrap, ◌-ℤ◌, sort_by, insert_by, some, [], ◌∷◌,
  List, ℤ, pos, Dict, arith,
}
use flon_contracts.Chain.{asset}
use flon_contracts.System.Voting.{ProducerInfo}
use flon_contracts.System.Finalizers.{
  FinalizerInfo, is_savanna_consensus, get_last_proposed_finalizers,
}
use flon_contracts.System.Schedule.{
  ScheduleState, TopProducer, by_votes, u64, entry, select, collect, prototalvote,
  update_elected_producers,
}
use flon_contracts.System.Schedule.Top.{collect-select}
use flon_contracts.System.Schedule.Update.{Scheduled, update_elected_producers-Scheduled}

abbrev producer : ℕ → ℤ → Bool → ProducerInfo
producer owner votes active = record {
  owner = owner;
  total_votes = votes;
  producer_key = 1;
  is_active = active;
  url = "";
  unclaimed_rewards = asset (pos 0) (record { code = 1; precision = 8 });
  last_claim_time = 0;
  location = owner;
  producer_authority = record { threshold = 1; keys = [] };
  reward_shared_ratio = 0;
}

abbrev table : Dict ProducerInfo
table =
    (3, producer 3 (pos 10) true)
    ∷ (5, producer 5 (pos 90) false)
    ∷ (6, producer 6 (pos 20) true)
    ∷ (8, producer 8 (pos 0) true)
    ∷ []

abbrev before : ScheduleState
before = record {
  last_producer_schedule_update = 0;
  last_producer_schedule_size = 1;
  producers = table;
  finality = record {
    finalizer_keys = [];
    finalizers = [];
    last_prop_finalizers = none;
    fin_key_id_generator = none;
    policies = [];
  };
  schedules = [];
}

abbrev finalizers : Dict FinalizerInfo
finalizers =
    (
      6,
      record {
        finalizer_name = 6;
        active_key_id = 4;
        active_key_binary = 1 ∷ [];
        finalizer_key_count = 1;
      },
    )
    ∷ []

abbrev accepts : List TopProducer → Option ℕ
accepts schedule = some 2

-- The two active producers with votes are scheduled.
two_scheduled : (update_elected_producers accepts 200 before).last_producer_schedule_size ≡ 2
unfolding update_elected_producers is_savanna_consensus get_last_proposed_finalizers prototalvote
    by_votes u64 select entry sort_by insert_by wrap ◌-ℤ◌
two_scheduled = refl

update_elected_producers-Scheduled_example :
    (update_elected_producers accepts 200 before
      ≡ record before { last_producer_schedule_update = 200 })
    ⊎ Scheduled before (update_elected_producers accepts 200 before)
update_elected_producers-Scheduled_example = update_elected_producers-Scheduled accepts 200 before (
  (omega arith, omega arith),
  ((omega arith, omega arith), ((omega arith, omega arith), ((omega arith, omega arith), tt))),
)

collect-select_example :
    collect finalizers 1 (prototalvote table)
    ≡ (select true finalizers 1 (prototalvote table)).proposed_finalizers
collect-select_example = collect-select finalizers 1 (prototalvote table)
