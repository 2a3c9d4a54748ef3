-- ===== src/Bios.antt =====
-- contracts/flon.bios/src/flon.bios.cpp: the contract that starts a chain.
pub mod Finality
pub mod Privileged
mod Tests
use flon_contracts.Base.{
  ℕ, ◌+◌, ◌-◌, ◌*◌, ◌/◌, ◌%◌, ◌^◌, Bool, true, false, not, ◌&&◌, ◌||◌, List, [], ◌∷◌, ◌++◌, none,
  some, ltb, leb, ◌==◌, if◌then◌else◌, Result, ok, err, ◌>>=◌, ◌>>◌, check, Dict, lookup, insert,
  size,
}
use flon_contracts.Chain.{Context}
use flon_contracts.System.Voting.{same_names}
use flon_contracts.System.Finalizers.{Bytes, BlsHost, starts_with, pub_bls, sig_bls}

abbrev pub max_finalizers : ℕ
max_finalizers = 64 * 1024

abbrev pub max_finalizer_description_size : ℕ
max_finalizer_description_size = 256

-- `eosiobios::finalizer_authority`: the keys are texts.
pub record FinalizerAuthority : Type 0 where
  pub description : Bytes
  pub weight : ℕ
  pub public_key : Bytes
  pub pop : Bytes

-- `eosiobios::finalizer_policy`
pub record FinalizerPolicy : Type 0 where
  pub threshold : ℕ
  pub finalizers : List FinalizerAuthority

-- `eosio::finalizer_authority` of the contract library, with the decoded key.
pub record ChainAuthority : Type 0 where
  pub description : Bytes
  pub weight : ℕ
  pub public_key : Bytes

pub record ChainPolicy : Type 0 where
  pub threshold : ℕ
  pub finalizers : List ChainAuthority

-- `abi_hash`
pub record AbiHash : Type 0 where
  pub owner : ℕ
  pub hash : ℕ

-- The calls of privileged functions of the host. A schedule of producers and the parameters of the
-- chain are their bytes.
pub data HostCall : Type 0 where
  set_finalizers : ChainPolicy → HostCall
  set_privileged : ℕ → ℕ → HostCall
  set_resource_limits : ℕ → ℕ → Bool → HostCall
  set_proposed_producers set_blockchain_parameters : Bytes → HostCall
  preactivate_feature : ℕ → HostCall

pub record BiosState : Type 0 where
  pub abi_hashes : Dict AbiHash
  pub calls : List HostCall

abbrev pub calls_host : HostCall → BiosState → BiosState
calls_host call s = record s { calls = s.calls ++ call ∷ [] }

unfoldable pub setabi : BlsHost → ℕ → Bytes → BiosState → BiosState
setabi host account abi s = elim (lookup account s.abi_hashes) as (λ _. BiosState) [
  | none ↦ record s {
    abi_hashes = insert account (record { owner = account; hash = host.sha256 abi }) s.abi_hashes;
  }
  | some row ↦ record s {
    abi_hashes = insert account (record row { hash = host.sha256 abi }) s.abi_hashes;
  }
]

-- `unique_finalizer_keys`, a `std::unordered_set`: the elements with their hashes. An element is
-- looked for among those with its hash.
abbrev pub has_element : ℕ → Bytes → List (ℕ × Bytes) → Bool
has_element hash key [] = false
has_element hash key ((h, k) ∷ set) = h == hash && same_names k key || has_element hash key set

-- The loop over the finalizers, from round `i` on: the sum of the weights, and the finalizers of the
-- policy. `g1_hash` hashes the address of a key, not its bytes; `address i` is this hash for the
-- variable `pk` of round `i`.
unfoldable pub finalizers_loop :
    BlsHost
    → (ℕ → ℕ)
    → ℕ
    → List (ℕ × Bytes)
    → ℕ
    → List FinalizerAuthority
    → Result (ℕ × List ChainAuthority)
finalizers_loop host address i unique_finalizer_keys weight_sum [] = ok (weight_sum, [])
finalizers_loop host address i unique_finalizer_keys weight_sum (f ∷ rest) = do
  check (leb (size f.description) max_finalizer_description_size)
      "Finalizer description greater than max allowed size"
  check (starts_with pub_bls f.public_key) "public key shoud start with PUB_BLS"
  check (starts_with sig_bls f.pop) "proof of possession signature should start with SIG_BLS"
  check (leb f.weight (2 ^ 64 - 1 - weight_sum)) "sum of weights causes uint64_t overflow"
  pk ← host.decode_public_key f.public_key
  check (not (has_element (address i) pk unique_finalizer_keys)) "duplicate public key"
  signature ← host.decode_signature f.pop
  check (host.pop_verify pk signature) "proof of possession failed"
  done ←
      finalizers_loop host address (i + 1) ((address i, pk) ∷ unique_finalizer_keys)
        ((weight_sum + f.weight) % 2 ^ 64) rest
  ok (done.0, record { description = f.description; weight = f.weight; public_key = pk } ∷ done.1)

unfoldable pub setfinalizer :
    BlsHost → (ℕ → ℕ) → Context → FinalizerPolicy → BiosState → Result BiosState
setfinalizer host address c p s = do
  check (c.has_auth c.self) "missing authority"
  check (leb (size p.finalizers) max_finalizers) "number of finalizers exceeds the maximum allowed"
  check (ltb 0 (size p.finalizers)) "require at least one finalizer"
  done ← finalizers_loop host address 0 [] 0 p.finalizers
  check (leb p.threshold done.0 && ltb (done.0 / 2) p.threshold)
      "Finalizer policy threshold must be greater than half of the sum of the weights"
  ok (calls_host (set_finalizers (record { threshold = p.threshold; finalizers = done.1 })) s)

unfoldable pub onerror : BiosState → Result BiosState
onerror s = err "the onerror action cannot be called directly"

unfoldable pub setpriv : Context → ℕ → ℕ → BiosState → Result BiosState
setpriv c account is_priv s = do
  check (c.has_auth c.self) "missing authority"
  ok (calls_host (set_privileged account is_priv) s)

unfoldable pub setalimits : Context → ℕ → ℕ → Bool → BiosState → Result BiosState
setalimits c account gas is_unlimited s = do
  check (c.has_auth c.self) "missing authority"
  ok (calls_host (set_resource_limits account gas is_unlimited) s)

unfoldable pub setprods : Context → Bytes → BiosState → Result BiosState
setprods c schedule s = do
  check (c.has_auth c.self) "missing authority"
  ok (calls_host (set_proposed_producers schedule) s)

unfoldable pub setparams : Context → Bytes → BiosState → Result BiosState
setparams c params s = do
  check (c.has_auth c.self) "missing authority"
  ok (calls_host (set_blockchain_parameters params) s)

unfoldable pub reqauth : Context → ℕ → BiosState → Result BiosState
reqauth c from s = do check (c.has_auth from) "missing authority"; ok s

unfoldable pub activate : Context → ℕ → BiosState → Result BiosState
activate c feature_digest s = do
  check (c.has_auth c.self) "missing authority"
  ok (calls_host (preactivate_feature feature_digest) s)

-- `is_feature_activated` is what the host answers.
unfoldable pub reqactivated : (ℕ → Bool) → ℕ → BiosState → Result BiosState
reqactivated is_feature_activated feature_digest s = do
  check (is_feature_activated feature_digest) "protocol feature is not activated"
  ok s
