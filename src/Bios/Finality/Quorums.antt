-- ===== src/Bios/Finality/Quorums.antt =====
-- About `setfinalizer` of contracts/flon.bios/src/flon.bios.cpp: the quorums of the policies that
-- it sets.
use flon_contracts.Base.{
  ℕ, ◌+◌, ◌/◌, ◌^◌, ◌≤◌, ◌<◌, ◌≡◌, refl, Bool, ◌&&◌, List, [], ◌∷◌, ◌++◌, ok, inl, inr, arith,
  Bool-cases, Result-cases,
}
use flon_contracts.Chain.{Context}
use flon_contracts.System.Finalizers.{Bytes, BlsHost}
use flon_contracts.Bios.Finality.{Any, weight_of, everybody, loop_sum}
use flon_contracts.Bios.{
  FinalizerPolicy, ChainAuthority, ChainPolicy, BiosState, HostCall, finalizers_loop, setfinalizer,
}

both_weights :
    (a b : Bytes → Bool) (fs : List ChainAuthority)
    → weight_of a fs + weight_of b fs
      ≤ weight_of everybody fs + weight_of (λ key. a key && b key) fs
both_weights a b [] = omega arith
both_weights a b (f ∷ fs) = ground (arith, both_weights a b fs)

weight_of-Any : (p : Bytes → Bool) (fs : List ChainAuthority) → 0 < weight_of p fs → Any p fs
weight_of-Any p [] h = ground arith
weight_of-Any p (f ∷ fs) h = elim (Bool-cases (p f.public_key)) [
  | inl e ↦ inl e
  | inr e ↦ inr (weight_of-Any p fs (ground (arith, e)))
]

-- Two majorities share a finalizer.
quorums_meet :
    (a b : Bytes → Bool) (threshold : ℕ) (fs : List ChainAuthority)
    → weight_of everybody fs / 2 < threshold
    → threshold ≤ weight_of a fs
    → threshold ≤ weight_of b fs
    → Any (λ key. a key && b key) fs
quorums_meet a b threshold fs half enough_a enough_b =
    weight_of-Any _ fs (omega (arith, both_weights a b fs, half, enough_a, enough_b))

-- What the policy that is set guarantees to those who count the votes of finalizers.
pub record Quorums (p : FinalizerPolicy) (s t : BiosState) : Type 0 where
  pub policy : ChainPolicy
  pub sent : t.calls ≡ s.calls ++ HostCall.set_finalizers policy ∷ []
  pub kept : t.abi_hashes ≡ s.abi_hashes
  pub threshold : policy.threshold ≡ p.threshold
  pub in_range : weight_of everybody policy.finalizers < 2 ^ 64
  pub attainable : policy.threshold ≤ weight_of everybody policy.finalizers
  pub meet :
      (a b : Bytes → Bool)
      → policy.threshold ≤ weight_of a policy.finalizers
      → policy.threshold ≤ weight_of b policy.finalizers
      → Any (λ key. a key && b key) policy.finalizers

-- A setfinalizer that succeeds sets one policy, with the given threshold: the weights of its
-- finalizers have a sum below 2 ^ 64, which reaches the threshold, and any two groups of keys whose
-- finalizers reach the threshold have a finalizer in common.
pub setfinalizer-Quorums :
    (host : BlsHost) (address : ℕ → ℕ) (c : Context) (p : FinalizerPolicy) (s t : BiosState)
    → setfinalizer host address c p s ≡ ok t
    → Quorums p s t
unfolding setfinalizer
setfinalizer-Quorums host address c p s t h =
    elim (Result-cases (finalizers_loop host address 0 [] 0 p.finalizers)) [
      | inr (e, bad) ↦ ground (arith, bad)
      | inl (r, done) ↦
          let sum = loop_sum host address 0 [] 0 p.finalizers r (omega arith) done in
          let half : weight_of everybody r.1 / 2 < p.threshold = ground (arith, done, sum) in
          record {
            policy = record { threshold = p.threshold; finalizers = r.1 };
            sent = ground (arith, done);
            kept = ground (arith, done);
            threshold = refl;
            in_range = omega (arith, sum.0, sum.1);
            attainable = ground (arith, done, sum);
            meet = λ a b. quorums_meet a b p.threshold r.1 half;
          }
    ]
