-- ===== src/System/Finalizers.antt =====
-- contracts/flon.system/src/finalizer_key.cpp: the keys of finalizers, and the policy of finalizers.
pub mod Registered
pub mod Found
pub mod Kept
pub mod History
pub mod Policy
pub mod Search
mod Tests
use flon_contracts.Base.{
  ℕ, zero, suc, ◌+◌, ◌-◌, ◌*◌, ◌/◌, ◌%◌, ◌^◌, Bool, true, false, not, ◌&&◌, List, [], ◌∷◌, ◌++◌,
  map, Option, none, some, ltb, ◌==◌, ◌||◌, if◌then◌else◌, Result, ok, ◌>>=◌, ◌>>◌, check, or_fail,
  Dict, lookup, insert, erase, ◌≡◌, size, sort_by,
}
use flon_contracts.Chain.{Context}
use flon_contracts.System.Voting.{ProducerInfo, require_auth, length, same_names}

-- Texts are lists of characters, and packed keys and signatures are lists of bytes.
abbrev pub Bytes : Type 0
Bytes = List ℕ

-- `decode_bls_public_key_to_g1`, `decode_bls_signature_to_g2`, `bls_pop_verify` and `sha256` of the
-- contract library. A decoded key is an array of 96 bytes.
pub record BlsHost : Type 0 where
  pub decode_public_key : Bytes → Result Bytes
  pub decode_signature : Bytes → Result Bytes
  pub pop_verify : Bytes → Bytes → Bool
  pub sha256 : Bytes → ℕ
  pub decoded_length : (t key : Bytes) → decode_public_key t ≡ ok key → length key ≡ 96

pub record FinalizerKeyInfo : Type 0 where
  pub id : ℕ
  pub finalizer_name : ℕ
  pub finalizer_key : Bytes
  pub finalizer_key_binary : Bytes

pub record FinalizerInfo : Type 0 where
  pub finalizer_name : ℕ
  pub active_key_id : ℕ
  pub active_key_binary : Bytes
  pub finalizer_key_count : ℕ

-- `eosio::finalizer_authority`; the description is the finalizer's name.
pub record FinalizerAuthority : Type 0 where
  pub description : ℕ
  pub weight : ℕ
  pub public_key : Bytes

pub record FinalizerAuthInfo : Type 0 where
  pub key_id : ℕ
  pub fin_authority : FinalizerAuthority

-- `eosio::finalizer_policy`
pub record FinalizerPolicy : Type 0 where
  pub threshold : ℕ
  pub finalizers : List FinalizerAuthority

-- The tables, and the policies given to `set_finalizers`. What is cached of the last proposed
-- finalizers is what the table holds.
pub record FinalizerState : Type 0 where
  pub finalizer_keys : Dict FinalizerKeyInfo
  pub finalizers : Dict FinalizerInfo
  pub last_prop_finalizers : Option (List FinalizerAuthInfo)
  pub fin_key_id_generator : Option ℕ
  pub policies : List FinalizerPolicy

unfoldable pub finalizer_auth_info : FinalizerInfo → FinalizerAuthInfo
finalizer_auth_info f = record {
  key_id = f.active_key_id;
  fin_authority = record {
    description = f.finalizer_name;
    weight = 1;
    public_key = f.active_key_binary;
  };
}

-- `operator==` of `finalizer_auth_info`, and of vectors of it.
abbrev pub same_entry : FinalizerAuthInfo → FinalizerAuthInfo → Bool
same_entry a b =
    a.key_id == b.key_id && same_names a.fin_authority.public_key b.fin_authority.public_key

unfoldable pub same_entries : List FinalizerAuthInfo → List FinalizerAuthInfo → Bool
same_entries [] [] = true
same_entries (a ∷ xs) (b ∷ ys) = same_entry a b && same_entries xs ys
same_entries _ _ = false

-- Before the first proposal the code dereferences an empty optional, for which the standard defines no
-- value; the model has the empty vector there, which the callers treat as no proposal.
unfoldable pub get_last_proposed_finalizers : FinalizerState → List FinalizerAuthInfo
get_last_proposed_finalizers s = elim s.last_prop_finalizers as (λ _. List FinalizerAuthInfo) [
  | none ↦ []
  | some entries ↦ entries
]

abbrev pub is_empty {ℓ} : {A : Type ℓ} → List A → Bool
is_empty [] = true
is_empty (x ∷ xs) = false

unfoldable pub is_savanna_consensus : FinalizerState → Bool
is_savanna_consensus s = not (is_empty (get_last_proposed_finalizers s))

abbrev pub starts_with : Bytes → Bytes → Bool
starts_with [] text = true
starts_with (c ∷ cs) [] = false
starts_with (c ∷ cs) (d ∷ ds) = c == d && starts_with cs ds

-- "PUB_BLS" and "SIG_BLS"
abbrev pub pub_bls : Bytes
pub_bls = 80 ∷ 85 ∷ 66 ∷ 95 ∷ 66 ∷ 76 ∷ 83 ∷ []

abbrev pub sig_bls : Bytes
sig_bls = 83 ∷ 73 ∷ 71 ∷ 95 ∷ 66 ∷ 76 ∷ 83 ∷ []

unfoldable pub to_binary : BlsHost → Bytes → Result Bytes
to_binary host finalizer_key = do
  check (starts_with pub_bls finalizer_key) "finalizer key does not start with PUB_BLS"
  host.decode_public_key finalizer_key

-- The search by the index `byfinkey`: the primary key with the row.
unfoldable pub find_key : BlsHost → ℕ → Dict FinalizerKeyInfo → Option (ℕ × FinalizerKeyInfo)
find_key host hash [] = none
find_key host hash ((i, k) ∷ keys) =
    let rest = find_key host hash keys in
    if host.sha256 k.finalizer_key_binary == hash then some (i, k) else rest

unfoldable pub get_finalizer_itr : ℕ → FinalizerState → Result FinalizerInfo
get_finalizer_itr finalizer_name s = do
  f ← or_fail (lookup finalizer_name s.finalizers) "finalizer has not registered any finalizer keys"
  check (ltb 0 f.finalizer_key_count) "finalizer must have at least one registered finalizer keys"
  ok f

-- The new ID, with the row that the generator has then.
unfoldable pub get_next_finalizer_key_id : FinalizerState → ℕ
get_next_finalizer_key_id s = elim s.fin_key_id_generator [ none ↦ 0 | some i ↦ (i + 1) % 2 ^ 64 ]

-- The vector sorted by the IDs.
unfoldable pub sort_by_id : List FinalizerAuthInfo → List FinalizerAuthInfo
sort_by_id entries = sort_by (λ e. e.key_id) entries

abbrev pub authorities : List FinalizerAuthInfo → List FinalizerAuthority
authorities entries = map (λ e. e.fin_authority) entries

unfoldable pub policy_of : List FinalizerAuthInfo → FinalizerPolicy
policy_of entries = record {
  threshold = (size (authorities entries) * 2) / 3 + 1;
  finalizers = authorities entries;
}

unfoldable pub set_proposed_finalizers : List FinalizerAuthInfo → FinalizerState → FinalizerState
set_proposed_finalizers proposed s =
    let sorted = sort_by_id proposed in
    if same_entries sorted (get_last_proposed_finalizers s) then s else record s {
      policies = s.policies ++ policy_of sorted ∷ [];
      last_prop_finalizers = some sorted;
    }

abbrev pub new_key : ℕ → ℕ → Bytes → Bytes → FinalizerKeyInfo
new_key id n text key = record {
  id = id;
  finalizer_name = n;
  finalizer_key = text;
  finalizer_key_binary = key;
}

-- The finalizer's row with one key more; its first key is active.
abbrev pub counted : ℕ → ℕ → Bytes → Option FinalizerInfo → FinalizerInfo
counted n id key none = record {
  finalizer_name = n;
  active_key_id = id;
  active_key_binary = key;
  finalizer_key_count = 1;
}
counted n id key (some f) = record f { finalizer_key_count = (f.finalizer_key_count + 1) % 2 ^ 32 }

unfoldable pub regfinkey :
    BlsHost
    → Context
    → Dict ProducerInfo
    → ℕ
    → Bytes
    → Bytes
    → FinalizerState
    → Result FinalizerState
regfinkey host c producers finalizer_name finalizer_key proof_of_possession s = do
  require_auth c finalizer_name
  p ← or_fail (lookup finalizer_name producers) "finalizer is not a registered producer"
  check (starts_with sig_bls proof_of_possession)
      "proof of possession signature does not start with SIG_BLS"
  key ← to_binary host finalizer_key
  pop ← host.decode_signature proof_of_possession
  check
      (elim (find_key host (host.sha256 key) s.finalizer_keys) as (λ _. Bool) [
        | none ↦ true
        | some _ ↦ false
      ])
      "duplicate finalizer key"
  check (host.pop_verify key pop) "proof of possession check failed"
  let id = get_next_finalizer_key_id s
  check (elim (lookup id s.finalizer_keys) as (λ _. Bool) [ none ↦ true | some _ ↦ false ])
      "the primary key is in the table"
  let row = new_key id finalizer_name finalizer_key key
  let f = counted finalizer_name id key (lookup finalizer_name s.finalizers)
  ok (record s {
    finalizer_keys = insert id row s.finalizer_keys;
    finalizers = insert finalizer_name f s.finalizers;
    fin_key_id_generator = some id;
  })

abbrev pub drop {ℓ} : {A : Type ℓ} → ℕ → List A → List A
drop n [] = []
drop zero (x ∷ xs) = x ∷ xs
drop (suc n) (x ∷ xs) = drop n xs

-- The loop of `std::lower_bound`, a binary search: `entries` begin at `first`, and `len` of them are
-- left. The result is the distance from `first`. The fuel is the length at the start.
unfoldable pub lower_bound_loop : ℕ → ℕ → ℕ → List FinalizerAuthInfo → ℕ
lower_bound_loop zero active len entries = 0
lower_bound_loop (suc fuel) active len entries = elim (len == 0) as (λ _. ℕ) [
  | true ↦ 0
  | false ↦ elim (drop (len / 2) entries) as (λ _. ℕ) [
    | [] ↦ 0
    | middle ∷ after ↦ elim (ltb middle.key_id active) as (λ _. ℕ) [
      | true ↦ len / 2 + 1 + lower_bound_loop fuel active (len - (len / 2 + 1)) after
      | false ↦ lower_bound_loop fuel active (len / 2) entries
    ]
  ]
]

-- The vector with the entry at the index replaced, if there is one and it has the ID.
unfoldable pub replace_at :
    ℕ → ℕ → FinalizerKeyInfo → List FinalizerAuthInfo → Option (List FinalizerAuthInfo)
replace_at i active k [] = none
replace_at zero active k (e ∷ rest) =
    if e.key_id == active
    then some (
        record {
          key_id = k.id;
          fin_authority = record e.fin_authority { public_key = k.finalizer_key_binary };
        }
        ∷ rest)
    else none
replace_at (suc i) active k (e ∷ rest) =
    elim (replace_at i active k rest) as (λ _. Option (List FinalizerAuthInfo)) [
      | none ↦ none
      | some changed ↦ some (e ∷ changed)
    ]

unfoldable pub replace_entry :
    ℕ → FinalizerKeyInfo → List FinalizerAuthInfo → Option (List FinalizerAuthInfo)
replace_entry active k entries =
    replace_at (lower_bound_loop (size entries) active (size entries) entries) active k entries

unfoldable pub actfinkey : BlsHost → Context → ℕ → Bytes → FinalizerState → Result FinalizerState
actfinkey host c finalizer_name finalizer_key s = do
  require_auth c finalizer_name
  f ← get_finalizer_itr finalizer_name s
  key ← to_binary host finalizer_key
  r ← or_fail (find_key host (host.sha256 key) s.finalizer_keys) "finalizer key was not registered"
  let k = r.1
  check (k.finalizer_name == finalizer_name) "finalizer key was not registered by the finalizer"
  check (not (k.id == f.active_key_id)) "finalizer key was already active"
  let s1 = record s {
    finalizers =
        insert finalizer_name
          (record f { active_key_id = k.id; active_key_binary = k.finalizer_key_binary })
          s.finalizers;
  }
  elim (replace_entry f.active_key_id k (get_last_proposed_finalizers s1))
      as (λ _. Result FinalizerState) [
        | none ↦ ok s1
        | some proposed ↦ ok (set_proposed_finalizers proposed s1)
      ]

unfoldable pub delfinkey : BlsHost → Context → ℕ → Bytes → FinalizerState → Result FinalizerState
delfinkey host c finalizer_name finalizer_key s = do
  require_auth c finalizer_name
  f ← get_finalizer_itr finalizer_name s
  key ← to_binary host finalizer_key
  r ← or_fail (find_key host (host.sha256 key) s.finalizer_keys) "finalizer key was not registered"
  let k = r.1
  check (k.finalizer_name == finalizer_name) "finalizer key was not registered by the finalizer"
  check (not (k.id == f.active_key_id) || f.finalizer_key_count == 1)
      "cannot delete an active key unless it is the last registered finalizer key"
  let rows =
      if f.finalizer_key_count == 1
      then erase finalizer_name s.finalizers
      else insert finalizer_name (record f { finalizer_key_count = f.finalizer_key_count - 1 })
          s.finalizers
  ok (record s { finalizers = rows; finalizer_keys = erase r.0 s.finalizer_keys })
