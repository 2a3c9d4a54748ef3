-- ===== src/System/Finalizers/Tests.antt =====
-- contracts/flon.system/src/finalizer_key.cpp at concrete inputs.
use flon_contracts.Base.{
  ℕ, zero, suc, subst, ◌+◌, ◌≡◌, refl, true, none, some, Result, err, ap, [], ◌∷◌, List, ok, map,
  pos, arith, size,
}
use flon_contracts.Chain.{asset, Context}
use flon_contracts.System.Voting.{ProducerInfo, length}
use flon_contracts.System.Finalizers.{
  Bytes, BlsHost, FinalizerAuthInfo, FinalizerKeyInfo, FinalizerState, sig_bls, find_key,
  get_finalizer_itr, get_next_finalizer_key_id, to_binary, regfinkey, actfinkey, delfinkey,
  get_last_proposed_finalizers, replace_entry, replace_at, lower_bound_loop,
}
use flon_contracts.System.Finalizers.Registered.{Registered}
use flon_contracts.System.Finalizers.History.{Action, apply, run, run-Registered}
use flon_contracts.System.Finalizers.Search.{swapped, replace_entry-swapped}

abbrev zeros : ℕ → Bytes
zeros zero = []
zeros (suc n) = 0 ∷ zeros n

abbrev last_byte : Bytes → ℕ
last_byte [] = 0
last_byte (b ∷ []) = b
last_byte (b ∷ c ∷ bytes) = last_byte (c ∷ bytes)

abbrev first_byte : Bytes → ℕ
first_byte [] = 0
first_byte (b ∷ bytes) = b

ok_key : (a b : Bytes) → Path (Result Bytes) (ok a) (ok b) → a ≡ b
ok_key a b e = ap (λ r. elim r [ ok k ↦ k | err m ↦ a ]) e

-- A key is its last character, with 95 zeros; the hash of a key is its first byte.
abbrev host : BlsHost
host = record {
  decode_public_key = λ t. ok (last_byte t ∷ zeros 95);
  decode_signature = λ t. ok t;
  pop_verify = λ key pop. true;
  sha256 = first_byte;
  decoded_length =
      λ t key e. subst (λ k. length k ≡ 96) (ok_key (last_byte t ∷ zeros 95) key e) refl;
}

abbrev text : ℕ → Bytes
text n = 80 ∷ 85 ∷ 66 ∷ 95 ∷ 66 ∷ 76 ∷ 83 ∷ n ∷ []

abbrev anybody : Context
anybody = record {
  has_auth = λ _. true;
  is_account = λ _. true;
  self = 9;
  now = 0;
  now_sec = 0;
  now_slot = 0;
}

abbrev producer : ProducerInfo
producer = record {
  owner = 7;
  total_votes = pos 5;
  producer_key = 1;
  is_active = true;
  url = "";
  unclaimed_rewards = asset (pos 0) (record { code = 1; precision = 8 });
  last_claim_time = 0;
  location = 0;
  producer_authority = record { threshold = 1; keys = [] };
  reward_shared_ratio = 0;
}

abbrev empty : FinalizerState
empty = record {
  finalizer_keys = [];
  finalizers = [];
  last_prop_finalizers = none;
  fin_key_id_generator = none;
  policies = [];
}

-- A finalizer registers two keys, activates the second, deletes the first, and tries to delete one
-- that is gone.
abbrev actions : List Action
actions =
    Action.registers anybody ((7, producer) ∷ []) 7 (text 1) sig_bls
    ∷ Action.registers anybody ((7, producer) ∷ []) 7 (text 2) sig_bls
    ∷ Action.activates anybody 7 (text 2)
    ∷ Action.deletes anybody 7 (text 1)
    ∷ Action.deletes anybody 7 (text 1)
    ∷ []

abbrev second_key : FinalizerKeyInfo
second_key = record {
  id = 1;
  finalizer_name = 7;
  finalizer_key = text 2;
  finalizer_key_binary = 2 ∷ zeros 95;
}

run_actions : run host actions empty ≡ record {
  finalizer_keys = (1, second_key) ∷ [];
  finalizers =
      (
        7,
        record {
          finalizer_name = 7;
          active_key_id = 1;
          active_key_binary = 2 ∷ zeros 95;
          finalizer_key_count = 1;
        },
      )
      ∷ [];
  last_prop_finalizers = none;
  fin_key_id_generator = some 1;
  policies = [];
}
unfolding run apply regfinkey actfinkey delfinkey to_binary find_key get_finalizer_itr
    get_next_finalizer_key_id get_last_proposed_finalizers replace_entry replace_at lower_bound_loop
run_actions = refl

empty-Registered : Registered host 0 empty
unfolding get_next_finalizer_key_id
empty-Registered = record {
  unique = tt;
  ids = λ i k e. ground arith;
  next = omega arith;
  counts = λ n. refl;
  bound = λ n. omega arith;
  active = λ n f e. ground arith;
  hashes = λ i j k l e f g. ground arith;
}

run-Registered_example : Registered host (0 + size actions) (run host actions empty)
run-Registered_example = run-Registered host actions 0 empty (omega arith) empty-Registered

abbrev entry : ℕ → FinalizerAuthInfo
entry id = record {
  key_id = id;
  fin_authority = record { description = 70 + id; weight = 1; public_key = id ∷ [] };
}

replace_entry-swapped_example :
    elim (replace_entry 5 second_key (entry 2 ∷ entry 5 ∷ [])) as (λ _. List FinalizerAuthInfo) [
      | none ↦ entry 2 ∷ entry 5 ∷ []
      | some changed ↦ changed
    ]
    ≡ map (swapped 5 second_key) (entry 2 ∷ entry 5 ∷ [])
replace_entry-swapped_example =
    replace_entry-swapped 5 second_key (entry 2 ∷ entry 5 ∷ []) ((omega arith, tt), (tt, tt))
      (omega arith)
