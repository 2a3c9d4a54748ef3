-- ===== src/Bios/Finality/Accepts.antt =====
-- About `setfinalizer` of contracts/flon.bios/src/flon.bios.cpp: which policies it accepts.
use flon_contracts.Base.{
  ℕ, ◌+◌, ◌*◌, ◌^◌, ◌≤◌, ◌<◌, ◌≡◌, ◌≢◌, ◌↔◌, refl, sym, ◌∙◌, true, false, List, [], ◌∷◌, ok, inl,
  inr, arith, size, All, All-map, All-zip, Result-cases,
}
use native.Mathlib.Nat.{mod-eq_of_lt}
use flon_contracts.Chain.{Context}
use flon_contracts.System.Voting.{same_names}
use flon_contracts.System.Finalizers.{Bytes, BlsHost, starts_with, pub_bls, sig_bls}
use flon_contracts.Bios.Finality.{round, loop_sum}
use flon_contracts.Bios.{
  FinalizerAuthority, FinalizerPolicy, ChainAuthority, ChainPolicy, BiosState, HostCall, calls_host,
  has_element, finalizers_loop, setfinalizer, max_finalizers, max_finalizer_description_size,
}

abbrev pub total_weight : List FinalizerAuthority → ℕ
total_weight [] = 0
total_weight (f ∷ fs) = f.weight + total_weight fs

-- What the contract asks of one finalizer.
abbrev pub WellFormed : BlsHost → FinalizerAuthority → Type 0
WellFormed host f =
    (size f.description ≤ max_finalizer_description_size)
    × (starts_with pub_bls f.public_key ≡ true)
    × (starts_with sig_bls f.pop ≡ true)
    × ((key : Bytes) × (signature : Bytes) × (host.decode_public_key f.public_key ≡ ok key)
        × (host.decode_signature f.pop ≡ ok signature)
        × (host.pop_verify key signature ≡ true))

-- The texts of two keys are decoded to different keys.
abbrev pub Apart : BlsHost → FinalizerAuthority → FinalizerAuthority → Type 0
Apart host f g = host.decode_public_key f.public_key ≢ host.decode_public_key g.public_key

abbrev pub Distinct : BlsHost → List FinalizerAuthority → Type 0
Distinct host [] = Unit
Distinct host (f ∷ fs) = All (Apart host f) fs × Distinct host fs

-- What the contract asks of a policy.
pub record Acceptable (host : BlsHost) (p : FinalizerPolicy) : Type 0 where
  pub some_finalizer : 0 < size p.finalizers
  pub few : size p.finalizers ≤ max_finalizers
  pub well_formed : All (WellFormed host) p.finalizers
  pub distinct : Distinct host p.finalizers
  pub in_range : total_weight p.finalizers < 2 ^ 64
  pub majority : total_weight p.finalizers < 2 * p.threshold
  pub attainable : p.threshold ≤ total_weight p.finalizers

same_names-eq : (xs ys : List ℕ) → same_names xs ys ≡ true → xs ≡ ys
unfolding same_names
same_names-eq [] [] h = refl
same_names-eq [] (y ∷ ys) h = ground arith
same_names-eq (x ∷ xs) [] h = ground arith
same_names-eq (x ∷ xs) (y ∷ ys) h = ground (arith, same_names-eq xs ys)

same_names_refl : (xs : List ℕ) → same_names xs xs ≡ true
unfolding same_names
same_names_refl [] = refl
same_names_refl (x ∷ xs) = ground (arith, same_names_refl xs)

-- No element of the set is the key of the finalizer.
abbrev Unseen : BlsHost → List (ℕ × Bytes) → FinalizerAuthority → Type 0
Unseen host set f = All (λ e. host.decode_public_key f.public_key ≢ ok e.1) set

record Passed (host : BlsHost) (set : List (ℕ × Bytes)) (w : ℕ) (fs : List FinalizerAuthority)
    (sum : ℕ) : Type 0 where
  well_formed : All (WellFormed host) fs
  distinct : Distinct host fs
  unseen : All (Unseen host set) fs
  total : sum ≡ w + total_weight fs

module _ (host : BlsHost) where
  absent-Unseen :
      (hash : ℕ) (key : Bytes) (f : FinalizerAuthority) (set : List (ℕ × Bytes))
      → All (λ e. e.0 ≡ hash) set
      → host.decode_public_key f.public_key ≡ ok key
      → has_element hash key set ≡ false
      → Unseen host set f
  absent-Unseen hash key f [] at d h = tt
  absent-Unseen hash key f (e ∷ set) at d h = (
    λ same. ground (arith, same, d, at.0, same_names_refl key),
    absent-Unseen hash key f set at.1 d (ground (arith, h)),
  )

  Unseen-absent :
      (hash : ℕ) (key : Bytes) (f : FinalizerAuthority) (set : List (ℕ × Bytes))
      → host.decode_public_key f.public_key ≡ ok key
      → Unseen host set f
      → has_element hash key set ≡ false
  Unseen-absent hash key f [] d u = refl
  Unseen-absent hash key f (e ∷ set) d u =
      ground (arith, d, u.0, same_names-eq e.1 key, Unseen-absent hash key f set d u.1)

  module _ (address : ℕ → ℕ) (one : (i : ℕ) → address i ≡ address 0) where
    loop-Passed :
        (i : ℕ) (set : List (ℕ × Bytes)) (w : ℕ) (fs : List FinalizerAuthority)
        (r : ℕ × List ChainAuthority)
        → w < 2 ^ 64
        → All (λ e. e.0 ≡ address 0) set
        → finalizers_loop host address i set w fs ≡ ok r
        → Passed host set w fs r.0
    unfolding finalizers_loop
    loop-Passed i set w [] r small at h = record {
      well_formed = tt;
      distinct = tt;
      unseen = tt;
      total = ground arith;
    }
    loop-Passed i set w (f ∷ fs) r small at h =
        let now = round host address i set w f fs r small h in
        let set' = (address i, now.pk) ∷ set in
        let rest =
          loop-Passed (i + 1) set' (w + f.weight) fs now.rest now.fits (one i, at) now.later in
        let fresh : has_element (address 0) now.pk set ≡ false = rw (sym (one i)) now.fresh in
        record {
          well_formed = (
            (
              now.short,
              now.key_prefix,
              now.pop_prefix,
              (now.pk, now.signature, now.decoded, now.signed, now.verified),
            ),
            rest.well_formed,
          );
          distinct = (
            All-map (Unseen host set') (Apart host f) fs (λ g u same. u.0 (sym same ∙ now.decoded))
                rest.unseen,
            rest.distinct,
          );
          unseen = (
            absent-Unseen (address 0) now.pk f set at now.decoded fresh,
            All-map (Unseen host set') (Unseen host set) fs (λ g u. u.1) rest.unseen,
          );
          total = rw now.result (omega (arith, rest.total));
        }

  loop_runs :
      (address : ℕ → ℕ) (i : ℕ) (set : List (ℕ × Bytes)) (w : ℕ) (fs : List FinalizerAuthority)
      → All (WellFormed host) fs
      → Distinct host fs
      → All (Unseen host set) fs
      → w + total_weight fs < 2 ^ 64
      → (out : List ChainAuthority) × (finalizers_loop host address i set w fs
          ≡ ok (w + total_weight fs, out))
  unfolding finalizers_loop
  loop_runs address i set w [] wf d u small = ([], ground arith)
  loop_runs address i set w (f ∷ fs) wf d u small =
      let (short, key_prefix, pop_prefix, (pk, signature, decoded, signed, verified)) = wf.0 in
      let later =
        loop_runs address (i + 1) ((address i, pk) ∷ set) (w + f.weight) fs wf.1 d.1
          (All-zip (Apart host f) (Unseen host set) (Unseen host ((address i, pk) ∷ set)) fs
            (λ g apart rest. ((λ same. apart (decoded ∙ sym same)), rest)) d.0 u.1)
          (omega (arith, small)) in
      let fits : w + f.weight < 2 ^ 64 = omega (arith, small) in
      (
        record { description = f.description; weight = f.weight; public_key = pk } ∷ later.0,
        ground (
          arith,
          short,
          key_prefix,
          pop_prefix,
          decoded,
          Unseen-absent (address i) pk f set decoded u.0,
          signed,
          verified,
          mod-eq_of_lt fits,
          later.1,
        ),
      )

fresh_start : (host : BlsHost) (fs : List FinalizerAuthority) → All (Unseen host []) fs
fresh_start host [] = tt
fresh_start host (f ∷ fs) = (tt, fresh_start host fs)

accepted :
    (host : BlsHost) (address : ℕ → ℕ) (c : Context) (p : FinalizerPolicy) (s t : BiosState)
    → ((i : ℕ) → address i ≡ address 0)
    → setfinalizer host address c p s ≡ ok t
    → (c.has_auth c.self ≡ true) × Acceptable host p
unfolding setfinalizer
accepted host address c p s t one h =
    elim (Result-cases (finalizers_loop host address 0 [] 0 p.finalizers)) [
      | inr (e, bad) ↦ ground (arith, bad)
      | inl (r, done) ↦
          let passed = loop-Passed host address one 0 [] 0 p.finalizers r (omega arith) tt done in
          let sum = loop_sum host address 0 [] 0 p.finalizers r (omega arith) done in
          let total = passed.total in
          (
            ground arith,
            record {
              some_finalizer = ground arith;
              few = ground arith;
              well_formed = passed.well_formed;
              distinct = passed.distinct;
              in_range = omega (arith, total, sum.1);
              majority = ground (arith, done, total);
              attainable = ground (arith, done, total);
            },
          )
    ]

accepting :
    (host : BlsHost) (address : ℕ → ℕ) (c : Context) (p : FinalizerPolicy) (s : BiosState)
    → c.has_auth c.self ≡ true
    → Acceptable host p
    → (t : BiosState) × (setfinalizer host address c p s ≡ ok t)
unfolding setfinalizer
accepting host address c p s auth good =
    let r =
      loop_runs host address 0 [] 0 p.finalizers good.well_formed good.distinct
        (fresh_start host p.finalizers) (omega (arith, good.in_range)) in
    let policy : ChainPolicy = record { threshold = p.threshold; finalizers = r.0 } in
    (
      calls_host (HostCall.set_finalizers policy) s,
      ground (arith, auth, r.1, good.some_finalizer, good.few, good.attainable, good.majority),
    )

-- When the variable for the decoded key has the same address in every round, setfinalizer
-- succeeds exactly for the contract itself and for the policies of 1 to 65,536 finalizers with
-- short descriptions, keys and proofs of possession that are decoded and verified, no two of the
-- same key, whose weights have a sum below 2 ^ 64 that is at least the threshold and less than
-- twice the threshold.
pub setfinalizer-Acceptable :
    (host : BlsHost) (address : ℕ → ℕ) (c : Context) (p : FinalizerPolicy) (s : BiosState)
    → ((i : ℕ) → address i ≡ address 0)
    → ((t : BiosState) × (setfinalizer host address c p s ≡ ok t))
      ↔ ((c.has_auth c.self ≡ true) × Acceptable host p)
setfinalizer-Acceptable host address c p s one = (
  (λ (t, h). accepted host address c p s t one h),
  (λ (auth, good). accepting host address c p s auth good),
)
