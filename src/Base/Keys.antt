-- ===== src/Base/Keys.antt =====
-- Tables in which no key stands twice, and what is counted over their rows.
use Prim.Native.Nat.{ℕ, ◌+◌}
use mathlib.Core.Path.{◌≡◌, refl}
use mathlib.Core.Logic.{inl, inr}
use mathlib.Core.Bool.{Bool}
use mathlib.Core.Option.{none, some}
use mathlib.Core.List.{[], ◌∷◌}
use native.Mathlib.Omega.{arith}
use flon_contracts.Base.Tests.{◌==◌, if◌then◌else◌, Bool-cases}
use flon_contracts.Base.Int.{ℤ, pos, ◌+ℤ◌, int_laws}
use flon_contracts.Base.Sorting.{All, All-map}
use flon_contracts.Base.Tables.{Dict, lookup, insert, erase, lookup_or, lookup-insert, sum_by}

module _ {ℓ} {V : Type ℓ} where
  abbrev pub Unique : Dict V → Type ℓ
  Unique [] = Unit
  Unique ((k, v) ∷ d) = (lookup k d ≡ none) × Unique d

  pub insert-Unique : (k : ℕ) (v : V) (d : Dict V) → Unique d → Unique (insert k v d)
  insert-Unique k v [] u = (refl, tt)
  insert-Unique k v ((j, w) ∷ d) u = elim (Bool-cases (k == j)) [
    | inl e ↦ rw e u
    | inr e ↦ rw e (ground (arith, lookup-insert k j v d, u.0), insert-Unique k v d u.1)
  ]

  erase_absent : (k : ℕ) (d : Dict V) → lookup k d ≡ none → erase k d ≡ d
  erase_absent k [] h = refl
  erase_absent k ((j, v) ∷ d) h = ground (arith, erase_absent k d)

  lookup-erase-none : (j k : ℕ) (d : Dict V) → lookup j d ≡ none → lookup j (erase k d) ≡ none
  lookup-erase-none j k [] h = refl
  lookup-erase-none j k ((i, v) ∷ d) h = ground (arith, lookup-erase-none j k d)

  pub erase-Unique : (k : ℕ) (d : Dict V) → Unique d → Unique (erase k d)
  erase-Unique k [] u = tt
  erase-Unique k ((j, v) ∷ d) u = elim (Bool-cases (k == j)) [
    | inl e ↦ rw e (erase-Unique k d u.1)
    | inr e ↦ rw e (lookup-erase-none j k d u.0, erase-Unique k d u.1)
  ]

  pub sum_by-erase :
      (f : V → ℤ) (z : V) (k : ℕ) (d : Dict V)
      → f z ≡ pos 0
      → Unique d
      → sum_by f (erase k d) +ℤ f (lookup_or z k d) ≡ sum_by f d
  sum_by-erase f z k [] h u = rw h (omega int_laws)
  sum_by-erase f z k ((j, v) ∷ d) h u = elim (Bool-cases (k == j)) [
    | inl e ↦
        let same : erase k d ≡ d = ground (arith, erase_absent k d, u.0) in
        rw (e, lookup_or) (rw same (omega int_laws))
    | inr e ↦
        rw (e, lookup_or)
          (after (sum_by f (erase k d)) (sum_by f d) (f (lookup_or z k d)) (f v)
            (sum_by-erase f z k d h u.1))
  ]
    where
      after : (a b x y : ℤ) → a +ℤ x ≡ b → y +ℤ a +ℤ x ≡ y +ℤ b
      after a b x y e = grind (int_laws, e)

  -- Every row is the one that is found under its key.
  pub Unique-All : (d : Dict V) → Unique d → All (λ e. lookup e.0 d ≡ some e.1) d
  Unique-All [] u = tt
  Unique-All ((k, v) ∷ d) u = (
    ground arith,
    All-map (λ e. lookup e.0 d ≡ some e.1) _ d (λ e h. ground (arith, h, u.0)) (Unique-All d u.1),
  )

  -- The number of rows that pass a test.
  abbrev pub count_by : (V → Bool) → Dict V → ℕ
  count_by p [] = 0
  count_by p ((k, v) ∷ d) = (if p v then 1 else 0) + count_by p d

  pub count_by-insert :
      (p : V → Bool) (k : ℕ) (v : V) (d : Dict V)
      → lookup k d ≡ none
      → count_by p (insert k v d) ≡ (if p v then 1 else 0) + count_by p d
  count_by-insert p k v [] h = refl
  count_by-insert p k v ((j, w) ∷ d) h = ground (arith, count_by-insert p k v d)

  pub count_by-erase :
      (p : V → Bool) (k : ℕ) (v : V) (d : Dict V)
      → lookup k d ≡ some v
      → Unique d
      → (if p v then 1 else 0) + count_by p (erase k d) ≡ count_by p d
  count_by-erase p k v [] h u = ground arith
  count_by-erase p k v ((j, w) ∷ d) h u = elim (Bool-cases (k == j)) [
    | inl e ↦
        let same : erase k d ≡ d = ground (arith, erase_absent k d, u.0) in ground (arith, same)
    | inr e ↦ ground (arith, count_by-erase p k v d)
  ]
