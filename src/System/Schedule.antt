-- ===== src/System/Schedule.antt =====
-- contracts/flon.system: the choice of the producers of blocks, `update_elected_producers` of
-- src/voting.cpp and `switchtosvnn` of src/finalizer_key.cpp.
pub mod Top
pub mod Update
mod Tests
use flon_contracts.Base.{
  ℕ, ◌+◌, ◌-◌, ◌^◌, ◌%◌, Bool, true, false, not, ◌&&◌, ◌||◌, List, [], ◌∷◌, ◌++◌, map, Option, none,
  some, ltb, ◌==◌, ℤ, pos, negsuc, ◌-ℤ◌, ltb_ℤ, i64, if◌then◌else◌, Result, ok, ◌>>=◌, ◌>>◌, check,
  Dict, lookup, size, sort_by,
}
use flon_contracts.Chain.{Context}
use flon_contracts.System.Voting.{Authority, ProducerInfo, require_auth}
use flon_contracts.System.Finalizers.{
  FinalizerInfo, FinalizerAuthInfo, FinalizerState, finalizer_auth_info, is_empty,
  is_savanna_consensus, set_proposed_finalizers,
}

-- A conversion to `uint64_t`.
unfoldable pub u64 : ℤ → ℕ
u64 (pos n) = n % 2 ^ 64
u64 (negsuc n) = 2 ^ 64 - 1 - n % 2 ^ 64

unfoldable pub by_votes : ProducerInfo → ℕ
by_votes p =
    if p.is_active
    then u64 (i64 (pos (2 ^ 63 - 1) -ℤ p.total_votes))
    else 2 ^ 64 - 1 - u64 p.total_votes

-- The index `prototalvote`: by `by_votes`, and equal ones by the primary key.
unfoldable pub prototalvote : Dict ProducerInfo → List ProducerInfo
prototalvote table = sort_by by_votes (sort_by (λ p. p.owner) (map (λ r. r.1) table))

-- `eosio::producer_authority` with the location.
pub record TopProducer : Type 0 where
  pub producer_name : ℕ
  pub authority : Authority
  pub location : ℕ

abbrev pub top_producer : ProducerInfo → TopProducer
top_producer p = record {
  producer_name = p.owner;
  authority = p.producer_authority;
  location = p.location;
}

-- The finalizers that a producer brings, or nothing when the loop tries the next one.
unfoldable pub entry : Bool → Dict FinalizerInfo → ProducerInfo → Option (List FinalizerAuthInfo)
entry false finalizers p = some []
entry true finalizers p =
    elim (lookup p.owner finalizers) as (λ _. Option (List FinalizerAuthInfo)) [
      | none ↦ none
      | some f ↦ if is_empty f.active_key_binary then none else some (finalizer_auth_info f ∷ [])
    ]

pub record Selected : Type 0 where
  pub top_producers : List TopProducer
  pub proposed_finalizers : List FinalizerAuthInfo

abbrev pub nobody : Selected
nobody = record { top_producers = []; proposed_finalizers = [] }

abbrev pub goes_on : ℕ → ProducerInfo → Bool
goes_on room p = ltb 0 room && ltb_ℤ (pos 0) p.total_votes && p.is_active

-- The loop over the index; `room` producers are still wanted.
unfoldable pub select : Bool → Dict FinalizerInfo → ℕ → List ProducerInfo → Selected
select is_savanna finalizers room [] = nobody
select is_savanna finalizers room (p ∷ rest) = elim (goes_on room p) as (λ _. Selected) [
  | false ↦ nobody
  | true ↦ elim (entry is_savanna finalizers p) as (λ _. Selected) [
    | none ↦ select is_savanna finalizers room rest
    | some fs ↦
        let r = select is_savanna finalizers (room - 1) rest in
        record {
          top_producers = top_producer p ∷ r.top_producers;
          proposed_finalizers = fs ++ r.proposed_finalizers;
        }
  ]
]

-- The fields of the global state that the schedule uses, the tables of producers and finalizers, and
-- the schedules that the host has been given.
pub record ScheduleState : Type 0 where
  pub last_producer_schedule_update : ℕ
  pub last_producer_schedule_size : ℕ
  pub producers : Dict ProducerInfo
  pub finality : FinalizerState
  pub schedules : List (List TopProducer)

-- `set_proposed_producers` is a host function: the version of the schedule, if it takes it. The
-- location is not part of what it is given.
unfoldable pub update_elected_producers :
    (List TopProducer → Option ℕ) → ℕ → ScheduleState → ScheduleState
update_elected_producers set_proposed_producers block_time s =
    let s1 = record s { last_producer_schedule_update = block_time } in
    let is_savanna = is_savanna_consensus s.finality in
    let r = select is_savanna s.finality.finalizers 21 (prototalvote s.producers) in
    let n = size r.top_producers in
    if n == 0 || ltb n s.last_producer_schedule_size
    then s1
    else let producers = sort_by (λ t. t.producer_name) r.top_producers in
      record s1 {
        schedules = s.schedules ++ producers ∷ [];
        last_producer_schedule_size = elim (set_proposed_producers producers) [
          | none ↦ s.last_producer_schedule_size
          | some version ↦ size producers % 2 ^ 16
        ];
        finality =
            if is_savanna
            then set_proposed_finalizers r.proposed_finalizers s.finality
            else s.finality;
      }

-- The loop of `switchtosvnn`.
unfoldable pub collect : Dict FinalizerInfo → ℕ → List ProducerInfo → List FinalizerAuthInfo
collect finalizers room [] = []
collect finalizers room (p ∷ rest) = elim (goes_on room p) as (λ _. List FinalizerAuthInfo) [
  | false ↦ []
  | true ↦ elim (lookup p.owner finalizers) as (λ _. List FinalizerAuthInfo) [
    | none ↦ collect finalizers room rest
    | some f ↦ elim (is_empty f.active_key_binary) as (λ _. List FinalizerAuthInfo) [
      | true ↦ collect finalizers room rest
      | false ↦ finalizer_auth_info f ∷ collect finalizers (room - 1) rest
    ]
  ]
]

unfoldable pub switchtosvnn : Context → ScheduleState → Result ScheduleState
switchtosvnn c s = do
  require_auth c c.self
  check (not (is_savanna_consensus s.finality)) "switchtosvnn can be run only once"
  let proposed =
      collect s.finality.finalizers s.last_producer_schedule_size (prototalvote s.producers)
  check (size proposed == s.last_producer_schedule_size)
      "not enough top producers have registered finalizer keys"
  let finality = set_proposed_finalizers proposed s.finality
  check (is_savanna_consensus finality) "switching to Savanna failed"
  ok (record s { finality = finality })
