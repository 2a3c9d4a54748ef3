-- ===== src/Base/Tables.antt =====
-- A table: rows by primary key, at most one row that `lookup` finds for each key.
use Prim.Native.Nat.{ℕ}
use mathlib.Core.Path.{◌≡◌, refl}
use mathlib.Core.Option.{Option, none, some}
use mathlib.Core.List.{List, [], ◌∷◌}
use native.Mathlib.Omega.{arith}
use mathlib.Core.Logic.{inl, inr}
use flon_contracts.Base.Tests.{◌==◌, if◌then◌else◌, Bool-cases}
use flon_contracts.Base.Int.{ℤ, pos, ◌+ℤ◌, ◌≤ℤ◌, int_laws}

abbrev pub Dict {ℓ} : Type ℓ → Type ℓ
Dict V = List (ℕ × V)

module _ {ℓ} {V : Type ℓ} where
  abbrev pub lookup : ℕ → Dict V → Option V
  lookup k [] = none
  lookup k ((j, v) ∷ d) = if k == j then some v else lookup k d

  -- The row, or what stands for a missing one.
  abbrev pub lookup_or : V → ℕ → Dict V → V
  lookup_or z k d = elim (lookup k d) [ none ↦ z | some v ↦ v ]

  -- `emplace` and `modify`
  abbrev pub insert : ℕ → V → Dict V → Dict V
  insert k v [] = (k, v) ∷ []
  insert k v ((j, w) ∷ d) = let rest = insert k v d in if k == j then (j, v) ∷ d else (j, w) ∷ rest

  abbrev pub erase : ℕ → Dict V → Dict V
  erase k [] = []
  erase k (e ∷ d) = let rest = erase k d in if k == e.0 then rest else e ∷ rest

  pub lookup-insert :
      (k j : ℕ) (v : V) (d : Dict V)
      → lookup j (insert k v d) ≡ (if j == k then some v else lookup j d)
  lookup-insert k j v [] = refl
  lookup-insert k j v (e ∷ d) = ground (arith, lookup-insert k j v d)

  pub lookup-erase :
      (k j : ℕ) (d : Dict V) → lookup j (erase k d) ≡ (if j == k then none else lookup j d)
  lookup-erase k j [] = ground arith
  lookup-erase k j (e ∷ d) = ground (arith, lookup-erase k j d)

  -- The sum of a measure over the rows.
  abbrev pub sum_by : (V → ℤ) → Dict V → ℤ
  sum_by f [] = pos 0
  sum_by f ((k, v) ∷ d) = f v +ℤ sum_by f d

  -- Writing a row moves the sum by the difference of its measures.
  pub sum_by-insert :
      (f : V → ℤ) (z : V) (k : ℕ) (v : V) (d : Dict V)
      → f z ≡ pos 0
      → sum_by f (insert k v d) +ℤ f (lookup_or z k d) ≡ sum_by f d +ℤ f v
  sum_by-insert f z k v [] h = rw h (omega int_laws)
  sum_by-insert f z k v (e ∷ d) h = grind (int_laws, sum_by-insert f z k v d h)

  -- A property of every row.
  abbrev pub AllRows {κ} : (V → Type κ) → Dict V → Type κ
  AllRows P [] = Unit
  AllRows P ((k, v) ∷ d) = P v × AllRows P d

  pub AllRows-lookup_or {κ} :
      (P : V → Type κ) (z : V) (k : ℕ) (d : Dict V) → P z → AllRows P d → P (lookup_or z k d)
  AllRows-lookup_or P z k [] pz h = pz
  AllRows-lookup_or P z k ((j, v) ∷ d) pz h = elim (Bool-cases (k == j)) [
    | inl e ↦ rw (e, lookup_or) h.0
    | inr e ↦ rw (e, lookup_or) (AllRows-lookup_or P z k d pz h.1)
  ]

  pub AllRows-insert {κ} :
      (P : V → Type κ) (k : ℕ) (v : V) (d : Dict V) → P v → AllRows P d → AllRows P (insert k v d)
  AllRows-insert P k v [] pv h = (pv, tt)
  AllRows-insert P k v ((j, w) ∷ d) pv h = elim (Bool-cases (k == j)) [
    | inl e ↦ rw e (pv, h.1)
    | inr e ↦ rw e (h.0, AllRows-insert P k v d pv h.1)
  ]

  pub AllRows-erase {κ} :
      (P : V → Type κ) (k : ℕ) (d : Dict V) → AllRows P d → AllRows P (erase k d)
  AllRows-erase P k [] h = tt
  AllRows-erase P k ((j, w) ∷ d) h = elim (Bool-cases (k == j)) [
    | inl e ↦ rw e (AllRows-erase P k d h.1)
    | inr e ↦ rw e (h.0, AllRows-erase P k d h.1)
  ]

  pub AllRows-map {κ μ} :
      (P : V → Type κ) (Q : V → Type μ) (d : Dict V)
      → ((v : V) → P v → Q v)
      → AllRows P d
      → AllRows Q d
  AllRows-map P Q [] f h = tt
  AllRows-map P Q ((k, v) ∷ d) f h = (f v h.0, AllRows-map P Q d f h.1)

  -- No measure that is nowhere negative exceeds its sum.
  pub sum_by_nonneg : (f : V → ℤ) (d : Dict V) → AllRows (λ v. pos 0 ≤ℤ f v) d → pos 0 ≤ℤ sum_by f d
  sum_by_nonneg f [] h = omega arith
  sum_by_nonneg f ((k, v) ∷ d) h = omega (int_laws, sum_by_nonneg f d h.1, h.0)

  pub le-sum_by :
      (f : V → ℤ) (z : V) (k : ℕ) (d : Dict V)
      → f z ≡ pos 0
      → AllRows (λ v. pos 0 ≤ℤ f v) d
      → f (lookup_or z k d) ≤ℤ sum_by f d
  le-sum_by f z k [] e h = rw e (omega arith)
  le-sum_by f z k ((j, v) ∷ d) e h = elim (Bool-cases (k == j)) [
    | inl hit ↦ rw (hit, lookup_or) (omega (int_laws, sum_by_nonneg f d h.1))
    | inr miss ↦ rw (miss, lookup_or) (omega (int_laws, h.0, le-sum_by f z k d e h.1))
  ]
