-- ===== src/Bios/Tests.antt =====
-- flon.bios at concrete inputs.
use flon_contracts.Base.{
  ℕ, ◌≡◌, ◌↔◌, refl, zero, suc, subst, true, List, [], ◌∷◌, ◌++◌, ok, err, Result, arith, size,
}
use flon_contracts.Chain.{Context}
use flon_contracts.System.Voting.{same_names, length}
use flon_contracts.System.Finalizers.{Bytes, BlsHost, pub_bls, sig_bls}
use flon_contracts.Bios.{
  BiosState, HostCall, ChainAuthority, FinalizerPolicy, FinalizerAuthority, finalizers_loop,
  setfinalizer, setpriv,
}
use flon_contracts.Bios.Finality.Quorums.{Quorums, setfinalizer-Quorums}
use flon_contracts.Bios.Finality.Accepts.{Acceptable, setfinalizer-Acceptable}
use flon_contracts.Bios.Privileged.{does_setpriv, apply, Guarded, AbiKept, apply-Privileged}

abbrev itself : Context
itself = record {
  has_auth = λ _. true;
  is_account = λ _. true;
  self = 9;
  now = 0;
  now_sec = 0;
  now_slot = 0;
}

-- A key is its last character, with 95 zeros.
abbrev zeros : ℕ → Bytes
zeros zero = []
zeros (suc n) = 0 ∷ zeros n

abbrev last : Bytes → ℕ
last [] = 0
last (x ∷ []) = x
last (x ∷ y ∷ xs) = last (y ∷ xs)

ok_key : (a b : Bytes) → Result.ok a ≡ ok b → a ≡ b
ok_key a b h = ground arith

abbrev host : BlsHost
host = record {
  decode_public_key = λ t. ok (last t ∷ zeros 95);
  decode_signature = λ t. ok t;
  pop_verify = λ k s. true;
  sha256 = size;
  decoded_length = λ t key h. subst (λ k. length k ≡ 96) (ok_key (last t ∷ zeros 95) key h) refl;
}

abbrev finalizer : ℕ → ℕ → FinalizerAuthority
finalizer n weight = record {
  description = n ∷ [];
  weight = weight;
  public_key = pub_bls ++ n ∷ [];
  pop = sig_bls;
}

abbrev policy : ℕ → List FinalizerAuthority → FinalizerPolicy
policy threshold finalizers = record { threshold = threshold; finalizers = finalizers }

abbrev chosen : ℕ → ℕ → ChainAuthority
chosen n weight = record { description = n ∷ []; weight = weight; public_key = n ∷ zeros 95 }

abbrev before : BiosState
before = record { abi_hashes = []; calls = [] }

abbrev three : FinalizerPolicy
three = policy 3 (finalizer 1 2 ∷ finalizer 2 1 ∷ finalizer 3 2 ∷ [])

abbrev finality : BiosState
finality = record {
  abi_hashes = [];
  calls =
      HostCall.set_finalizers
        (record { threshold = 3; finalizers = chosen 1 2 ∷ chosen 2 1 ∷ chosen 3 2 ∷ [] })
      ∷ [];
}

abbrev same_place : ℕ → ℕ
same_place i = 7

sets : setfinalizer host same_place itself three before ≡ ok finality
unfolding setfinalizer finalizers_loop same_names
sets = refl

setfinalizer-Quorums_example : Quorums three before finality
setfinalizer-Quorums_example =
    setfinalizer-Quorums host same_place itself three before finality sets

setfinalizer-Acceptable_example :
    ((t : BiosState) × (setfinalizer host same_place itself three before ≡ ok t))
    ↔ ((true ≡ true) × Acceptable host three)
setfinalizer-Acceptable_example =
    setfinalizer-Acceptable host same_place itself three before (λ i. refl)

-- Half of the weights is not enough, and two finalizers with one key are refused.
half_refused :
    setfinalizer host same_place itself (policy 2 three.finalizers) before
    ≡ err "Finalizer policy threshold must be greater than half of the sum of the weights"
unfolding setfinalizer finalizers_loop same_names
half_refused = refl

twice_refused :
    setfinalizer host same_place itself (policy 2 (finalizer 1 2 ∷ finalizer 1 1 ∷ [])) before
    ≡ err "duplicate public key"
unfolding setfinalizer finalizers_loop same_names
twice_refused = refl

-- They are not refused where the variable for the key moves from one round to the next.
twice_accepted :
    setfinalizer host (λ i. i) itself (policy 2 (finalizer 1 2 ∷ finalizer 1 1 ∷ [])) before
    ≡ ok (record before {
      calls =
          HostCall.set_finalizers
            (record { threshold = 2; finalizers = chosen 1 2 ∷ chosen 1 1 ∷ [] })
          ∷ [];
    })
unfolding setfinalizer finalizers_loop same_names
twice_accepted = refl

abbrev privileged : BiosState
privileged = record before { calls = HostCall.set_privileged 5 1 ∷ [] }

raises : apply host same_place (λ _. true) itself (does_setpriv 5 1) before ≡ ok privileged
unfolding apply setpriv
raises = refl

apply-Privileged_example :
    Guarded host same_place (λ _. true) itself before privileged
    × ((k : ℕ) → AbiKept host same_place (λ _. true) k (does_setpriv 5 1) before privileged)
apply-Privileged_example =
    apply-Privileged host same_place (λ _. true) itself (does_setpriv 5 1) before privileged raises
