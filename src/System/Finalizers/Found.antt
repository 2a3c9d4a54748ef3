-- ===== src/System/Finalizers/Found.antt =====
-- About contracts/flon.system/src/finalizer_key.cpp: what `actfinkey` and `delfinkey` have found and
-- done when they succeed.
use flon_contracts.Base.{
  ℕ, ◌-◌, ◌<◌, ◌≡◌, ◌⊎◌, List, some, ◌==◌, if◌then◌else◌, ok, Dict, lookup, insert, erase, arith,
  Option-cases, Result-cases, inl, inr,
}
use flon_contracts.Chain.{Context}
use flon_contracts.System.Finalizers.{
  Bytes, BlsHost, FinalizerAuthInfo, FinalizerKeyInfo, FinalizerInfo, FinalizerState, find_key,
  get_finalizer_itr, get_last_proposed_finalizers, set_proposed_finalizers, replace_entry,
  to_binary, actfinkey, delfinkey,
}

module _ (host : BlsHost) where
  -- The key and the row that `actfinkey` and `delfinkey` work on.
  pub record Found (n : ℕ) (s : FinalizerState) : Type 0 where
    pub f : FinalizerInfo
    pub hash : ℕ
    pub i : ℕ
    pub k : FinalizerKeyInfo
    pub row : lookup n s.finalizers ≡ some f
    pub positive : 0 < f.finalizer_key_count
    pub key : find_key host hash s.finalizer_keys ≡ some (i, k)
    pub owner : k.finalizer_name ≡ n

  abbrev pub with_active : ℕ → FinalizerInfo → FinalizerKeyInfo → FinalizerState → FinalizerState
  with_active n f k s = record s {
    finalizers =
        insert n (record f { active_key_id = k.id; active_key_binary = k.finalizer_key_binary })
          s.finalizers;
  }

  abbrev pub fewer : ℕ → FinalizerInfo → FinalizerState → Dict FinalizerInfo
  fewer n f s =
      if f.finalizer_key_count == 1
      then erase n s.finalizers
      else insert n (record f { finalizer_key_count = f.finalizer_key_count - 1 }) s.finalizers

  get_finalizer_itr-lookup :
      (n : ℕ) (s : FinalizerState) (f : FinalizerInfo)
      → get_finalizer_itr n s ≡ ok f
      → (lookup n s.finalizers ≡ some f) × (0 < f.finalizer_key_count)
  unfolding get_finalizer_itr
  get_finalizer_itr-lookup n s f h = (ground arith, ground arith)

  pub actfinkey_inv :
      (c : Context) (n : ℕ) (text : Bytes) (s t : FinalizerState)
      → actfinkey host c n text s ≡ ok t
      → (x : Found n s) × ((t ≡ with_active n x.f x.k s)
          ⊎ ((proposed : List FinalizerAuthInfo) × (t
                ≡ set_proposed_finalizers proposed (with_active n x.f x.k s))))
  unfolding actfinkey
  actfinkey_inv c n text s t h = elim (Result-cases (get_finalizer_itr n s)) [
    | inr (m, e) ↦ ground arith
    | inl (f, e) ↦ elim (Result-cases (to_binary host text)) [
      | inr (m, g) ↦ ground arith
      | inl (key, g) ↦ elim (Option-cases (find_key host (host.sha256 key) s.finalizer_keys)) [
        | inl i ↦ ground arith
        | inr ((i, k), j) ↦ (
          record {
            f = f;
            hash = host.sha256 key;
            i = i;
            k = k;
            row = (get_finalizer_itr-lookup n s f e).0;
            positive = (get_finalizer_itr-lookup n s f e).1;
            key = j;
            owner = ground arith;
          },
          elim (Option-cases (
              replace_entry f.active_key_id k
                (get_last_proposed_finalizers (with_active n f k s)))) [
                  | inl l ↦ inl (ground arith)
                  | inr (proposed, l) ↦ inr (proposed, ground arith)
                ],
        )
      ]
    ]
  ]

  pub delfinkey_inv :
      (c : Context) (n : ℕ) (text : Bytes) (s t : FinalizerState)
      → delfinkey host c n text s ≡ ok t
      → (x : Found n s) × (x.k.id ≡ x.f.active_key_id → x.f.finalizer_key_count ≡ 1)
        × (t ≡ record s { finalizers = fewer n x.f s; finalizer_keys = erase x.i s.finalizer_keys })
  unfolding delfinkey
  delfinkey_inv c n text s t h = elim (Result-cases (get_finalizer_itr n s)) [
    | inr (m, e) ↦ ground arith
    | inl (f, e) ↦ elim (Result-cases (to_binary host text)) [
      | inr (m, g) ↦ ground arith
      | inl (key, g) ↦ elim (Option-cases (find_key host (host.sha256 key) s.finalizer_keys)) [
        | inl i ↦ ground arith
        | inr ((i, k), j) ↦ (
          record {
            f = f;
            hash = host.sha256 key;
            i = i;
            k = k;
            row = (get_finalizer_itr-lookup n s f e).0;
            positive = (get_finalizer_itr-lookup n s f e).1;
            key = j;
            owner = ground arith;
          },
          λ same. ground arith,
          ground arith,
        )
      ]
    ]
  ]
