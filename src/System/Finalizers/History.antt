-- ===== src/System/Finalizers/History.antt =====
-- Histories of the actions of contracts/flon.system/src/finalizer_key.cpp.
use flon_contracts.Base.{
  ℕ, ◌+◌, ◌<◌, ◌^◌, ◌≡◌, subst, List, [], ◌∷◌, Result, ok, err, Dict, arith, Result-cases, inl, inr,
  size,
}
use flon_contracts.Chain.{Context}
use flon_contracts.System.Voting.{ProducerInfo}
use flon_contracts.System.Finalizers.{
  Bytes, BlsHost, FinalizerAuthInfo, FinalizerState, set_proposed_finalizers, regfinkey, actfinkey,
  delfinkey,
}
use flon_contracts.System.Finalizers.Registered.{Registered}
use flon_contracts.System.Finalizers.Kept.{
  regfinkey-Registered, actfinkey-Registered, delfinkey-Registered,
  set_proposed_finalizers-Registered,
}

-- The actions on the keys, and the new policy that a new schedule of producers brings.
pub data Action : Type 0 where
  registers : Context → Dict ProducerInfo → ℕ → Bytes → Bytes → Action
  activates : Context → ℕ → Bytes → Action
  deletes : Context → ℕ → Bytes → Action
  proposes : List FinalizerAuthInfo → Action

unfoldable pub apply : BlsHost → Action → FinalizerState → Result FinalizerState
apply host (Action.registers c producers n text pop) s = regfinkey host c producers n text pop s
apply host (Action.activates c n text) s = actfinkey host c n text s
apply host (Action.deletes c n text) s = delfinkey host c n text s
apply host (Action.proposes proposed) s = ok (set_proposed_finalizers proposed s)

-- An action that fails changes nothing.
unfoldable pub run : BlsHost → List Action → FinalizerState → FinalizerState
run host [] s = s
run host (a ∷ rest) s = elim (apply host a s) as (λ _. FinalizerState) [
  | ok t ↦ run host rest t
  | err m ↦ run host rest s
]

later :
    (host : BlsHost) (b : ℕ) (s : FinalizerState) → Registered host b s → Registered host (b + 1) s
later host b s r = record {
  unique = r.unique;
  ids = r.ids;
  next = omega (arith, r.next);
  counts = r.counts;
  bound = λ n. omega (arith, r.bound n);
  active = r.active;
  hashes = r.hashes;
}

apply-Registered :
    (host : BlsHost) (a : Action) (b : ℕ) (s t : FinalizerState)
    → b + 1 < 2 ^ 32
    → Registered host b s
    → apply host a s ≡ ok t
    → Registered host (b + 1) t
unfolding apply
apply-Registered host (Action.registers c producers n text pop) b s t small r h =
    regfinkey-Registered host c producers n text pop b s t small r h
apply-Registered host (Action.activates c n text) b s t small r h =
    later host b t (actfinkey-Registered host c n text b s t r h)
apply-Registered host (Action.deletes c n text) b s t small r h =
    later host b t (delfinkey-Registered host c n text b s t r h)
apply-Registered host (Action.proposes proposed) b s t small r h =
    let e : set_proposed_finalizers proposed s ≡ t = ground arith in
    later host b t
      (subst (Registered host b) e (set_proposed_finalizers-Registered host b proposed s r))

-- Fewer than 2 ^ 32 actions, by anybody and in any order, keep the tables in agreement: the count of
-- every finalizer is the number of its keys, its active key is one of its keys, no two keys have one
-- hash, and every ID that is in use has been given out and stands under its own number.
pub run-Registered :
    (host : BlsHost) (actions : List Action) (b : ℕ) (s : FinalizerState)
    → b + size actions < 2 ^ 32
    → Registered host b s
    → Registered host (b + size actions) (run host actions s)
unfolding run
run-Registered host [] b s small r = subst (λ n. Registered host n s) (omega arith) r
run-Registered host (a ∷ rest) b s small r = elim (Result-cases (apply host a s)) [
  | inl (t, e) ↦
      rw (e, run)
        (subst (λ n. Registered host n (run host rest t)) (omega arith)
          (run-Registered host rest (b + 1) t (omega arith)
            (apply-Registered host a b s t (omega arith) r e)))
  | inr (m, e) ↦
      rw (e, run)
        (subst (λ n. Registered host n (run host rest s)) (omega arith)
          (run-Registered host rest (b + 1) s (omega arith) (later host b s r)))
]
