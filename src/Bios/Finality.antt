-- ===== src/Bios/Finality.antt =====
-- About the loop of `setfinalizer` in contracts/flon.bios/src/flon.bios.cpp: what one round has
-- checked, and the sum of the weights.
pub mod Quorums
pub mod Accepts
use flon_contracts.Base.{
  ℕ, zero, suc, ◌+◌, ◌-◌, ◌*◌, ◌/◌, ◌%◌, ◌^◌, ◌≤◌, ◌<◌, ◌≡◌, ◌≢◌, ◌↔◌, ◌⊎◌, refl, sym, ap, ◌∙◌,
  subst, Bool, true, false, not, ◌&&◌, ◌||◌, List, [], ◌∷◌, ◌++◌, ltb, leb, ◌==◌, if◌then◌else◌,
  Result, ok, err, inl, inr, arith, size, All, All-map, All-zip, Bool-cases, Result-cases,
}
use native.Mathlib.Nat.{mod-eq_of_lt}
use flon_contracts.Chain.{Context}
use flon_contracts.System.Voting.{same_names}
use flon_contracts.System.Finalizers.{Bytes, BlsHost, starts_with, pub_bls, sig_bls}
use flon_contracts.Bios.{
  FinalizerAuthority, FinalizerPolicy, ChainAuthority, ChainPolicy, BiosState, HostCall, calls_host,
  has_element, finalizers_loop, setfinalizer, max_finalizers, max_finalizer_description_size,
}

-- The weight of the finalizers whose keys pass a test.
abbrev pub weight_of : (Bytes → Bool) → List ChainAuthority → ℕ
weight_of p [] = 0
weight_of p (f ∷ fs) = (if p f.public_key then f.weight else 0) + weight_of p fs

abbrev pub everybody : Bytes → Bool
everybody key = true

-- Some finalizer of the list has a key that passes a test.
abbrev pub Any : (Bytes → Bool) → List ChainAuthority → Type 0
Any p [] = ⊥
Any p (f ∷ fs) = (p f.public_key ≡ true) ⊎ Any p fs

-- A round of the loop that passes all its checks, and the rounds after it.
pub record Round (host : BlsHost) (address : ℕ → ℕ) (i : ℕ) (set : List (ℕ × Bytes)) (w : ℕ)
    (f : FinalizerAuthority) (fs : List FinalizerAuthority) (r : ℕ × List ChainAuthority)
    : Type 0 where
  pub pk : Bytes
  pub signature : Bytes
  pub rest : ℕ × List ChainAuthority
  pub short : size f.description ≤ max_finalizer_description_size
  pub key_prefix : starts_with pub_bls f.public_key ≡ true
  pub pop_prefix : starts_with sig_bls f.pop ≡ true
  pub fits : w + f.weight < 2 ^ 64
  pub decoded : host.decode_public_key f.public_key ≡ ok pk
  pub fresh : has_element (address i) pk set ≡ false
  pub signed : host.decode_signature f.pop ≡ ok signature
  pub verified : host.pop_verify pk signature ≡ true
  pub later :
      finalizers_loop host address (i + 1) ((address i, pk) ∷ set) (w + f.weight) fs ≡ ok rest
  pub result : r ≡ (
    rest.0,
    record { description = f.description; weight = f.weight; public_key = pk } ∷ rest.1,
  )

pub round :
    (host : BlsHost) (address : ℕ → ℕ) (i : ℕ) (set : List (ℕ × Bytes)) (w : ℕ)
    (f : FinalizerAuthority) (fs : List FinalizerAuthority) (r : ℕ × List ChainAuthority)
    → w < 2 ^ 64
    → finalizers_loop host address i set w (f ∷ fs) ≡ ok r
    → Round host address i set w f fs r
unfolding finalizers_loop
round host address i set w f fs r small h =
    elim (Result-cases (host.decode_public_key f.public_key)) [
      | inr (e, bad) ↦ ground (arith, bad)
      | inl (pk, key) ↦ elim (Result-cases (host.decode_signature f.pop)) [
        | inr (e, bad) ↦ ground (arith, bad, key)
        | inl (signature, sig) ↦
            let fits : w + f.weight < 2 ^ 64 = ground (arith, key, sig) in
            let whole = mod-eq_of_lt fits in
            elim (Result-cases
              (finalizers_loop host address (i + 1) ((address i, pk) ∷ set) (w + f.weight) fs)) [
                | inr (e, bad) ↦ ground (arith, key, sig, whole, bad)
                | inl (rest, later) ↦ record {
                  pk = pk;
                  signature = signature;
                  rest = rest;
                  short = ground (arith, key, sig);
                  key_prefix = ground (arith, key, sig);
                  pop_prefix = ground (arith, key, sig);
                  fits = fits;
                  decoded = key;
                  fresh = ground (arith, key, sig);
                  signed = sig;
                  verified = ground (arith, key, sig);
                  later = later;
                  result = ground (arith, key, sig, whole, later);
                }
              ]
      ]
    ]

-- What the loop has added up.
pub loop_sum :
    (host : BlsHost) (address : ℕ → ℕ) (i : ℕ) (set : List (ℕ × Bytes)) (w : ℕ)
    (fs : List FinalizerAuthority) (r : ℕ × List ChainAuthority)
    → w < 2 ^ 64
    → finalizers_loop host address i set w fs ≡ ok r
    → (r.0 ≡ w + weight_of everybody r.1) × (r.0 < 2 ^ 64)
unfolding finalizers_loop
loop_sum host address i set w [] r small h = (ground arith, ground arith)
loop_sum host address i set w (f ∷ fs) r small h =
    let one = round host address i set w f fs r small h in
    let more = loop_sum host address (i + 1) _ _ fs one.rest one.fits one.later in
    rw one.result (omega (arith, more.0), more.1)
