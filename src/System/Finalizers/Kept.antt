-- ===== src/System/Finalizers/Kept.antt =====
-- About contracts/flon.system/src/finalizer_key.cpp: what every action keeps of the tables.
use flon_contracts.Base.{
  ℕ, ◌+◌, ◌-◌, ◌<◌, ◌^◌, ◌≡◌, ◌≢◌, sym, subst, List, some, ◌==◌, ok, Dict, lookup, erase,
  lookup-insert, lookup-erase, erase-Unique, count_by, count_by-erase, arith, Bool-cases,
  Option-cases, Result-cases, inl, inr,
}
use flon_contracts.Chain.{Context}
use flon_contracts.System.Voting.{ProducerInfo}
use flon_contracts.System.Finalizers.{
  Bytes, BlsHost, FinalizerAuthInfo, FinalizerInfo, FinalizerState, find_key,
  get_last_proposed_finalizers, same_entries, sort_by_id, get_next_finalizer_key_id,
  set_proposed_finalizers, to_binary, regfinkey, actfinkey, delfinkey,
}
use flon_contracts.System.Finalizers.Registered.{
  Registered, ActiveKey, owned_by, count_in, find_key-lookup, add_key,
}
use flon_contracts.System.Finalizers.Found.{Found, with_active, fewer, actfinkey_inv, delfinkey_inv}

module _ (host : BlsHost) where
  pub regfinkey-Registered :
      (c : Context) (producers : Dict ProducerInfo) (n : ℕ) (text pop : Bytes) (b : ℕ)
      (s t : FinalizerState)
      → b + 1 < 2 ^ 32
      → Registered host b s
      → regfinkey host c producers n text pop s ≡ ok t
      → Registered host (b + 1) t
  unfolding regfinkey
  regfinkey-Registered c producers n text pop b s t small r h =
      elim (Result-cases (to_binary host text)) [
        | inr (m, e) ↦ ground arith
        | inl (key, e) ↦ elim (Option-cases (find_key host (host.sha256 key) s.finalizer_keys)) [
          | inr (k, f) ↦ ground arith
          | inl f ↦ elim (Option-cases (lookup (get_next_finalizer_key_id s) s.finalizer_keys)) [
            | inr (k, g) ↦ ground arith
            | inl g ↦
                subst (Registered host (b + 1)) (ground arith)
                  (add_key host b s r n text key f small g)
          ]
        ]
      ]

  pub set_proposed_finalizers-Registered :
      (b : ℕ) (proposed : List FinalizerAuthInfo) (s : FinalizerState)
      → Registered host b s
      → Registered host b (set_proposed_finalizers proposed s)
  unfolding set_proposed_finalizers get_next_finalizer_key_id
  set_proposed_finalizers-Registered b proposed s r =
      elim (Bool-cases (same_entries (sort_by_id proposed) (get_last_proposed_finalizers s))) [
        | inl e ↦ rw e r
        | inr e ↦ rw e record {
          unique = r.unique;
          ids = r.ids;
          next = r.next;
          counts = r.counts;
          bound = r.bound;
          active = r.active;
          hashes = r.hashes;
        }
      ]

  with_active-Registered :
      (b n : ℕ) (s : FinalizerState) (x : Found host n s)
      → Registered host b s
      → Registered host b (with_active host n x.f x.k s)
  unfolding get_next_finalizer_key_id
  with_active-Registered b n s x r =
      let here = find_key-lookup host x.hash s.finalizer_keys x.i x.k r.unique x.key in
      let row = x.row in
      let new : FinalizerInfo = record x.f {
        active_key_id = x.k.id;
        active_key_binary = x.k.finalizer_key_binary;
      } in
      record {
        unique = r.unique;
        ids = r.ids;
        next = r.next;
        counts = λ m. ground (arith, lookup-insert n m new s.finalizers, r.counts m, row);
        bound = λ m. ground (arith, lookup-insert n m new s.finalizers, r.bound m, row);
        active = λ m f e. elim (Bool-cases (m == n)) [
          | inl same ↦ (
            x.k,
            ground (arith, lookup-insert n m new s.finalizers, here, same, r.ids x.i x.k here),
            ground (arith, same, x.owner),
            ground (arith, lookup-insert n m new s.finalizers, same),
          )
          | inr other ↦ r.active m f (ground (arith, lookup-insert n m new s.finalizers, other))
        ];
        hashes = r.hashes;
      }

  delete_counts :
      (b n : ℕ) (s : FinalizerState) (x : Found host n s) (m : ℕ)
      → Registered host b s
      → count_by (owned_by m) (erase x.i s.finalizer_keys) ≡ count_in m (fewer host n x.f s)
  delete_counts b n s x m r =
      let here = find_key-lookup host x.hash s.finalizer_keys x.i x.k r.unique x.key in
      let less = record x.f { finalizer_key_count = x.f.finalizer_key_count - 1 } in
      ground (
        arith,
        count_by-erase (owned_by m) x.i x.k s.finalizer_keys here r.unique,
        lookup-insert n m less s.finalizers,
        lookup-erase n m s.finalizers,
        r.counts m,
        x.row,
        x.owner,
        x.positive,
      )

  delete_active :
      (b n : ℕ) (s : FinalizerState) (x : Found host n s) (m : ℕ) (f : FinalizerInfo)
      → Registered host b s
      → (x.k.id ≡ x.f.active_key_id → x.f.finalizer_key_count ≡ 1)
      → lookup m (fewer host n x.f s) ≡ some f
      → ActiveKey m f (erase x.i s.finalizer_keys)
  delete_active b n s x m f r last e =
      let here = find_key-lookup host x.hash s.finalizer_keys x.i x.k r.unique x.key in
      let less = record x.f { finalizer_key_count = x.f.finalizer_key_count - 1 } in
      elim (Bool-cases (m == n)) [
        | inl same ↦
            let (k, at, owner, binary) = r.active n x.f x.row in
            let many : x.f.finalizer_key_count ≢ 1 =
              λ one. ground (arith, lookup-erase n m s.finalizers, one, same, e) in
            let is_less : less ≡ f =
              ground (arith, lookup-insert n m less s.finalizers, many, same, e) in
            (
              k,
              ground (
                arith,
                is_less,
                lookup-erase x.i x.f.active_key_id s.finalizer_keys,
                at,
                last,
                many,
                r.ids x.i x.k here,
              ),
              ground (arith, same, owner),
              ground (arith, is_less, binary),
            )
        | inr other ↦
            let (k, at, owner, binary) = r.active m f (
              ground (
                arith,
                lookup-insert n m less s.finalizers,
                lookup-erase n m s.finalizers,
                other,
                e,
              )) in
            (
              k,
              ground (
                arith,
                lookup-erase x.i f.active_key_id s.finalizer_keys,
                at,
                here,
                owner,
                x.owner,
                other,
              ),
              owner,
              binary,
            )
      ]

  pub delfinkey-Registered :
      (c : Context) (n : ℕ) (text : Bytes) (b : ℕ) (s t : FinalizerState)
      → Registered host b s
      → delfinkey host c n text s ≡ ok t
      → Registered host b t
  unfolding get_next_finalizer_key_id
  delfinkey-Registered c n text b s t r h =
      let (x, last, done) = delfinkey_inv host c n text s t h in
      let less = record x.f { finalizer_key_count = x.f.finalizer_key_count - 1 } in
      subst (Registered host b) (sym done) record {
        unique = erase-Unique x.i s.finalizer_keys r.unique;
        ids = λ i k e. ground (arith, lookup-erase x.i i s.finalizer_keys, r.ids i k);
        next = r.next;
        counts = λ m. delete_counts b n s x m r;
        bound = λ m. ground (
          arith,
          lookup-insert n m less s.finalizers,
          lookup-erase n m s.finalizers,
          r.bound m,
          x.row,
        );
        active = λ m f e. delete_active b n s x m f r last e;
        hashes = λ i j k l e f. ground (
          arith,
          lookup-erase x.i i s.finalizer_keys,
          lookup-erase x.i j s.finalizer_keys,
          r.hashes i j k l,
        );
      }

  pub actfinkey-Registered :
      (c : Context) (n : ℕ) (text : Bytes) (b : ℕ) (s t : FinalizerState)
      → Registered host b s
      → actfinkey host c n text s ≡ ok t
      → Registered host b t
  actfinkey-Registered c n text b s t r h =
      let (x, done) = actfinkey_inv host c n text s t h in
      let r1 = with_active-Registered b n s x r in
      elim done [
        | inl e ↦ subst (Registered host b) (sym e) r1
        | inr (proposed, e) ↦
            subst (Registered host b) (sym e)
              (set_proposed_finalizers-Registered b proposed (with_active host n x.f x.k s) r1)
      ]
