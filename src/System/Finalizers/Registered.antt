-- ===== src/System/Finalizers/Registered.antt =====
-- About contracts/flon.system/src/finalizer_key.cpp: the tables of keys and of finalizers agree.
use flon_contracts.Base.{
  ℕ, ◌+◌, ◌≤◌, ◌<◌, ◌^◌, ◌≡◌, Bool, false, [], ◌∷◌, none, some, ◌==◌, Dict, lookup, insert,
  lookup-insert, Unique, insert-Unique, count_by, count_by-insert, arith, Bool-cases, Option-cases,
  inl, inr,
}
use flon_contracts.System.Finalizers.{
  Bytes, BlsHost, FinalizerKeyInfo, FinalizerInfo, FinalizerState, find_key,
  get_next_finalizer_key_id, new_key, counted,
}

abbrev pub owned_by : ℕ → FinalizerKeyInfo → Bool
owned_by n k = k.finalizer_name == n

abbrev pub count_in : ℕ → Dict FinalizerInfo → ℕ
count_in n rows = elim (lookup n rows) [ none ↦ 0 | some f ↦ f.finalizer_key_count ]

-- The row of a finalizer names a key of that finalizer, and has it as its binary.
abbrev pub ActiveKey : ℕ → FinalizerInfo → Dict FinalizerKeyInfo → Type 0
ActiveKey n f keys =
    (k : FinalizerKeyInfo) × (lookup f.active_key_id keys ≡ some k)
    × (k.finalizer_name ≡ n)
    × (k.finalizer_key_binary ≡ f.active_key_binary)

-- At most `b` keys of each finalizer, and IDs that have been given out only.
pub record Registered (host : BlsHost) (b : ℕ) (s : FinalizerState) : Type 0 where
  pub unique : Unique s.finalizer_keys
  pub ids :
      (i : ℕ) (k : FinalizerKeyInfo)
      → lookup i s.finalizer_keys ≡ some k
      → (k.id ≡ i) × (i < get_next_finalizer_key_id s)
  pub next : get_next_finalizer_key_id s ≤ b
  pub counts : (n : ℕ) → count_by (owned_by n) s.finalizer_keys ≡ count_in n s.finalizers
  pub bound : (n : ℕ) → count_in n s.finalizers ≤ b
  pub active :
      (n : ℕ) (f : FinalizerInfo) → lookup n s.finalizers ≡ some f → ActiveKey n f s.finalizer_keys
  pub hashes :
      (i j : ℕ) (k l : FinalizerKeyInfo)
      → lookup i s.finalizer_keys ≡ some k
      → lookup j s.finalizer_keys ≡ some l
      → host.sha256 k.finalizer_key_binary ≡ host.sha256 l.finalizer_key_binary
      → i ≡ j

pub find_key-lookup :
    (host : BlsHost) (h : ℕ) (keys : Dict FinalizerKeyInfo) (i : ℕ) (k : FinalizerKeyInfo)
    → Unique keys
    → find_key host h keys ≡ some (i, k)
    → lookup i keys ≡ some k
unfolding find_key
find_key-lookup host h [] i k u e = ground arith
find_key-lookup host h ((j, l) ∷ keys) i k u e =
    elim (Bool-cases (host.sha256 l.finalizer_key_binary == h)) [
      | inl same ↦ ground (arith, same)
      | inr differs ↦ ground (arith, find_key-lookup host h keys i k u.1, u.0, differs)
    ]

pub find_key-none :
    (host : BlsHost) (h : ℕ) (keys : Dict FinalizerKeyInfo) (i : ℕ) (k : FinalizerKeyInfo)
    → find_key host h keys ≡ none
    → lookup i keys ≡ some k
    → (host.sha256 k.finalizer_key_binary == h) ≡ false
unfolding find_key
find_key-none host h [] i k e f = ground arith
find_key-none host h ((j, l) ∷ keys) i k e f = ground (arith, find_key-none host h keys i k)

module _ (host : BlsHost) (b : ℕ) (s : FinalizerState) (r : Registered host b s) where
  add_counts :
      (n id : ℕ) (text key : Bytes) (m : ℕ)
      → lookup id s.finalizer_keys ≡ none
      → b + 1 < 2 ^ 32
      → count_by (owned_by m) (insert id (new_key id n text key) s.finalizer_keys)
        ≡ count_in m (insert n (counted n id key (lookup n s.finalizers)) s.finalizers)
  add_counts n id text key m fresh small = elim (Option-cases (lookup n s.finalizers)) [
    | inl e ↦ ground (
      arith,
      count_by-insert (owned_by m) id (new_key id n text key) s.finalizer_keys fresh,
      lookup-insert n m (counted n id key none) s.finalizers,
      r.counts m,
      e,
    )
    | inr (f, e) ↦ ground (
      arith,
      count_by-insert (owned_by m) id (new_key id n text key) s.finalizer_keys fresh,
      lookup-insert n m (counted n id key (some f)) s.finalizers,
      r.counts m,
      r.bound n,
      e,
    )
  ]

  add_active :
      (n id : ℕ) (text key : Bytes) (m : ℕ) (f : FinalizerInfo)
      → lookup id s.finalizer_keys ≡ none
      → lookup m (insert n (counted n id key (lookup n s.finalizers)) s.finalizers) ≡ some f
      → ActiveKey m f (insert id (new_key id n text key) s.finalizer_keys)
  add_active n id text key m f fresh e = elim (Bool-cases (m == n)) [
    | inl here ↦ elim (Option-cases (lookup n s.finalizers)) [
      | inl g ↦ (
        new_key id n text key,
        ground (
          arith,
          lookup-insert id id (new_key id n text key) s.finalizer_keys,
          lookup-insert n m (counted n id key none) s.finalizers,
          g,
          here,
        ),
        ground (arith, here),
        ground (arith, lookup-insert n m (counted n id key none) s.finalizers, g, here),
      )
      | inr (old, g) ↦
          let (k, at, owner, binary) = r.active n old g in
          (
            k,
            ground (
              arith,
              lookup-insert id old.active_key_id (new_key id n text key) s.finalizer_keys,
              lookup-insert n m (counted n id key (some old)) s.finalizers,
              at,
              fresh,
              g,
              here,
            ),
            ground (arith, here, owner),
            ground (
              arith,
              lookup-insert n m (counted n id key (some old)) s.finalizers,
              binary,
              g,
              here,
            ),
          )
    ]
    | inr other ↦
        let (k, at, owner, binary) = r.active m f (
          ground (
            arith,
            lookup-insert n m (counted n id key (lookup n s.finalizers)) s.finalizers,
            other,
          )) in
        (
          k,
          ground (
            arith,
            lookup-insert id f.active_key_id (new_key id n text key) s.finalizer_keys,
            at,
            fresh,
          ),
          owner,
          binary,
        )
  ]

  add_hashes :
      (n id : ℕ) (text key : Bytes) (i j : ℕ) (k l : FinalizerKeyInfo)
      → lookup id s.finalizer_keys ≡ none
      → find_key host (host.sha256 key) s.finalizer_keys ≡ none
      → lookup i (insert id (new_key id n text key) s.finalizer_keys) ≡ some k
      → lookup j (insert id (new_key id n text key) s.finalizer_keys) ≡ some l
      → host.sha256 k.finalizer_key_binary ≡ host.sha256 l.finalizer_key_binary
      → i ≡ j
  add_hashes n id text key i j k l fresh missing e f same = ground (
    arith,
    lookup-insert id i (new_key id n text key) s.finalizer_keys,
    lookup-insert id j (new_key id n text key) s.finalizer_keys,
    r.hashes i j k l,
    find_key-none host (host.sha256 key) s.finalizer_keys i k missing,
    find_key-none host (host.sha256 key) s.finalizer_keys j l missing,
  )

  -- A key is registered in the tables.
  pub add_key :
      (n : ℕ) (text key : Bytes)
      → find_key host (host.sha256 key) s.finalizer_keys ≡ none
      → b + 1 < 2 ^ 32
      → lookup (get_next_finalizer_key_id s) s.finalizer_keys ≡ none
      → Registered host (b + 1) (record s {
        finalizer_keys =
            insert
              (get_next_finalizer_key_id s)
              (new_key (get_next_finalizer_key_id s) n text key)
              s.finalizer_keys;
        finalizers =
            insert n
              (counted n (get_next_finalizer_key_id s) key (lookup n s.finalizers))
              s.finalizers;
        fin_key_id_generator = some (get_next_finalizer_key_id s);
      })
  unfolding get_next_finalizer_key_id
  add_key n text key missing small fresh =
      let id = get_next_finalizer_key_id s in
      let near : id ≤ b = r.next in
      record {
        unique = insert-Unique id (new_key id n text key) s.finalizer_keys r.unique;
        ids = λ i k e.
            ground
              (arith, lookup-insert id i (new_key id n text key) s.finalizer_keys, r.ids i k, near);
        next = omega (arith, near);
        counts = λ m. add_counts n id text key m fresh small;
        bound = λ m. ground (
          arith,
          lookup-insert n m (counted n id key (lookup n s.finalizers)) s.finalizers,
          r.bound m,
          r.bound n,
        );
        active = λ m f e. add_active n id text key m f fresh e;
        hashes = λ i j k l. add_hashes n id text key i j k l fresh missing;
      }
