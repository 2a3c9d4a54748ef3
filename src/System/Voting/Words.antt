-- ===== src/System/Voting/Words.antt =====
-- Sums of `int64_t` words, for contracts/flon.system/src/voting.cpp.
use flon_contracts.Base.{
  ℕ, ◌≡◌, refl, sym, ap, ◌∙◌, List, [], ◌∷◌, ◌==◌, Bool-cases, inl, inr, if◌then◌else◌, ℤ, pos,
  ◌+ℤ◌, i64, wrap, arith, int_laws,
}

-- The same word.
infix 4 ◌≈◌
abbrev pub ◌≈◌ : ℤ → ℤ → Type 0
a ≈ b = i64 a ≡ i64 b

i64-+ : (a b : ℤ) → i64 (i64 a +ℤ b) ≡ i64 (a +ℤ b)
unfolding wrap ◌+ℤ◌
i64-+ a b = ground arith

pub i64-≈ : (a : ℤ) → i64 a ≈ a
unfolding wrap
i64-≈ a = ground arith

pub ≈-+ : (a b c : ℤ) → a ≈ b → a +ℤ c ≈ b +ℤ c
≈-+ a b c h = sym (i64-+ a c) ∙ ap (λ (x : ℤ). i64 (x +ℤ c)) h ∙ i64-+ b c

pub +ℤ_comm : (a b : ℤ) → a +ℤ b ≡ b +ℤ a
+ℤ_comm a b = omega int_laws

pub +-≈ : (a b c : ℤ) → a ≈ b → c +ℤ a ≈ c +ℤ b
+-≈ a b c h = rw (+ℤ_comm c a, +ℤ_comm c b) (≈-+ a b c h)

pub of_≡ : {a b : ℤ} → a ≡ b → a ≈ b
of_≡ e = ap i64 e

-- `x` for each time that `k` is listed.
abbrev pub tally : ℕ → ℤ → List ℕ → ℤ
tally k x [] = pos 0
tally k x (p ∷ ps) = (if k == p then x else pos 0) +ℤ tally k x ps

swap_sum : (a b c d : ℤ) → a +ℤ b +ℤ (c +ℤ d) ≡ a +ℤ c +ℤ (b +ℤ d)
swap_sum a b c d = omega int_laws

pub tally-+ : (k : ℕ) (x y : ℤ) (ps : List ℕ) → tally k (x +ℤ y) ps ≡ tally k x ps +ℤ tally k y ps
tally-+ k x y [] = omega int_laws
tally-+ k x y (p ∷ ps) = elim (Bool-cases (k == p)) [
  | inl e ↦ rw (e, tally-+ k x y ps) (swap_sum x y (tally k x ps) (tally k y ps))
  | inr e ↦ rw (e, tally-+ k x y ps) (omega int_laws)
]

pub tally-≈ : (k : ℕ) (x y : ℤ) (ps : List ℕ) → x ≈ y → tally k x ps ≈ tally k y ps
tally-≈ k x y [] h = refl
tally-≈ k x y (p ∷ ps) h = elim (Bool-cases (k == p)) [
  | inl e ↦
      rw e (≈-+ x y (tally k x ps) h ∙ +-≈ (tally k x ps) (tally k y ps) y (tally-≈ k x y ps h))
  | inr e ↦ rw e (+-≈ (tally k x ps) (tally k y ps) (pos 0) (tally-≈ k x y ps h))
]

pub tally-zero : (k : ℕ) (ps : List ℕ) → tally k (pos 0) ps ≡ pos 0
tally-zero k [] = refl
tally-zero k (p ∷ ps) = elim (Bool-cases (k == p)) [
  | inl e ↦ rw (e, tally-zero k ps) (omega int_laws)
  | inr e ↦ rw (e, tally-zero k ps) (omega int_laws)
]
