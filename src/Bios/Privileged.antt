-- ===== src/Bios/Privileged.antt =====
-- About all actions of contracts/flon.bios/src/flon.bios.cpp: who reaches the privileged functions
-- of the host.
use flon_contracts.Base.{
  ℕ, ◌≡◌, ◌⊎◌, Bool, true, [], ◌∷◌, ◌++◌, some, ◌==◌, Result, ok, lookup, insert, lookup-insert,
  inl, inr, refl, ap, subst, arith, Option-cases, Bool-cases,
}
use flon_contracts.Chain.{Context}
use flon_contracts.System.Finalizers.{Bytes, BlsHost}
use flon_contracts.Bios.Finality.Quorums.{setfinalizer-Quorums}
use flon_contracts.Bios.{
  BiosState, HostCall, FinalizerPolicy, AbiHash, setabi, setfinalizer, onerror, setpriv, setalimits,
  setprods, setparams, reqauth, activate, reqactivated,
}

-- The actions that the contract implements.
pub data Action : Type 0 where
  does_setabi : ℕ → Bytes → Action
  does_setfinalizer : FinalizerPolicy → Action
  does_onerror : Action
  does_setpriv : ℕ → ℕ → Action
  does_setalimits : ℕ → ℕ → Bool → Action
  does_setprods does_setparams : Bytes → Action
  does_reqauth does_activate does_reqactivated : ℕ → Action

module _ (host : BlsHost) (address : ℕ → ℕ) (is_feature_activated : ℕ → Bool) where
  unfoldable pub apply : Context → Action → BiosState → Result BiosState
  apply c (does_setabi account abi) s = ok (setabi host account abi s)
  apply c (does_setfinalizer p) s = setfinalizer host address c p s
  apply c does_onerror s = onerror s
  apply c (does_setpriv account is_priv) s = setpriv c account is_priv s
  apply c (does_setalimits account gas is_unlimited) s = setalimits c account gas is_unlimited s
  apply c (does_setprods schedule) s = setprods c schedule s
  apply c (does_setparams params) s = setparams c params s
  apply c (does_reqauth from) s = reqauth c from s
  apply c (does_activate feature_digest) s = activate c feature_digest s
  apply c (does_reqactivated feature_digest) s = reqactivated is_feature_activated feature_digest s

  -- What becomes of the calls of the host.
  abbrev pub Guarded : Context → BiosState → BiosState → Type 0
  Guarded c s t =
      (t.calls ≡ s.calls)
      ⊎ ((c.has_auth c.self ≡ true) × ((call : HostCall) × (t.calls ≡ s.calls ++ call ∷ [])))

  -- What becomes of the hash of the ABI of an account.
  abbrev pub AbiKept : ℕ → Action → BiosState → BiosState → Type 0
  AbiKept k a s t =
      (lookup k t.abi_hashes ≡ lookup k s.abi_hashes)
      ⊎ ((abi : Bytes) × (row : AbiHash) × (a ≡ does_setabi k abi)
          × (lookup k t.abi_hashes ≡ some row)
          × (row.hash ≡ host.sha256 abi))

  setfinalizer-Guarded :
      (c : Context) (p : FinalizerPolicy) (s t : BiosState)
      → setfinalizer host address c p s ≡ ok t
      → Guarded c s t
  unfolding setfinalizer
  setfinalizer-Guarded c p s t h =
      let q = setfinalizer-Quorums host address c p s t h in
      inr (ground arith, (HostCall.set_finalizers q.policy, q.sent))

  setabi_row :
      (account : ℕ) (abi : Bytes) (s : BiosState)
      → (row : AbiHash) × (row.hash ≡ host.sha256 abi)
        × ((setabi host account abi s).abi_hashes ≡ insert account row s.abi_hashes)
  unfolding setabi
  setabi_row account abi s = elim (Option-cases (lookup account s.abi_hashes)) [
    | inl new ↦ (record { owner = account; hash = host.sha256 abi }, refl, ground (arith, new))
    | inr (old, there) ↦ (record old { hash = host.sha256 abi }, refl, ground (arith, there))
  ]

  setabi-AbiKept :
      (k account : ℕ) (abi : Bytes) (s : BiosState)
      → AbiKept k (does_setabi account abi) s (setabi host account abi s)
  setabi-AbiKept k account abi s =
      let (row, hash, written) = setabi_row account abi s in
      let found = lookup-insert account k row s.abi_hashes in
      elim (Bool-cases (k == account)) [
        | inl e ↦
            let same : does_setabi account abi ≡ does_setabi k abi = ground (arith, e) in
            inr (abi, row, same, rw written (ground (arith, e, found)), hash)
        | inr e ↦ inl (rw written (ground (arith, e, found)))
      ]

  apply-Guarded : (c : Context) (a : Action) (s t : BiosState) → apply c a s ≡ ok t → Guarded c s t
  unfolding apply setabi onerror setpriv setalimits setprods setparams reqauth activate reqactivated
  apply-Guarded c (does_setabi account abi) s t h = inl (ground arith)
  apply-Guarded c (does_setfinalizer p) s t h = setfinalizer-Guarded c p s t h
  apply-Guarded c does_onerror s t h = ground arith
  apply-Guarded c (does_setpriv account is_priv) s t h =
      inr (ground arith, (HostCall.set_privileged account is_priv, ground arith))
  apply-Guarded c (does_setalimits account gas is_unlimited) s t h =
      inr (ground arith, (HostCall.set_resource_limits account gas is_unlimited, ground arith))
  apply-Guarded c (does_setprods schedule) s t h =
      inr (ground arith, (HostCall.set_proposed_producers schedule, ground arith))
  apply-Guarded c (does_setparams params) s t h =
      inr (ground arith, (HostCall.set_blockchain_parameters params, ground arith))
  apply-Guarded c (does_reqauth from) s t h = inl (ground arith)
  apply-Guarded c (does_activate feature_digest) s t h =
      inr (ground arith, (HostCall.preactivate_feature feature_digest, ground arith))
  apply-Guarded c (does_reqactivated feature_digest) s t h = inl (ground arith)

  apply-AbiKept :
      (k : ℕ) (c : Context) (a : Action) (s t : BiosState) → apply c a s ≡ ok t → AbiKept k a s t
  unfolding apply onerror setpriv setalimits setprods setparams reqauth activate reqactivated
  apply-AbiKept k c (does_setabi account abi) s t h =
      let same : setabi host account abi s ≡ t = ground arith in
      subst (AbiKept k (does_setabi account abi) s) same (setabi-AbiKept k account abi s)
  apply-AbiKept k c (does_setfinalizer p) s t h =
      inl (ap (lookup k) (setfinalizer-Quorums host address c p s t h).kept)
  apply-AbiKept k c does_onerror s t h = ground arith
  apply-AbiKept k c (does_setpriv account is_priv) s t h = inl (ground arith)
  apply-AbiKept k c (does_setalimits account gas is_unlimited) s t h = inl (ground arith)
  apply-AbiKept k c (does_setprods schedule) s t h = inl (ground arith)
  apply-AbiKept k c (does_setparams params) s t h = inl (ground arith)
  apply-AbiKept k c (does_reqauth from) s t h = inl (ground arith)
  apply-AbiKept k c (does_activate feature_digest) s t h = inl (ground arith)
  apply-AbiKept k c (does_reqactivated feature_digest) s t h = inl (ground arith)

  -- An action that succeeds either calls no privileged function of the host, or it has the
  -- authority of the contract and calls one, once. The hash of an account's ABI stays as it was, or
  -- the action is a setabi of this account and the hash is that of its bytes.
  pub apply-Privileged :
      (c : Context) (a : Action) (s t : BiosState)
      → apply c a s ≡ ok t
      → Guarded c s t × ((k : ℕ) → AbiKept k a s t)
  apply-Privileged c a s t h = (apply-Guarded c a s t h, λ k. apply-AbiKept k c a s t h)
