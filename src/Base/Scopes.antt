-- ===== src/Base/Scopes.antt =====
-- Tables with scopes: for each scope a table of its own.
use Prim.Native.Nat.{ℕ}
use mathlib.Core.Path.{◌≡◌}
use mathlib.Core.Bool.{◌&&◌}
use mathlib.Core.Option.{Option, none, some}
use mathlib.Core.List.{[]}
use native.Mathlib.Omega.{arith}
use flon_contracts.Base.Tests.{◌==◌, if◌then◌else◌}
use flon_contracts.Base.Tables.{Dict, lookup, insert, erase, lookup_or, lookup-insert, lookup-erase}

module _ {ℓ} {V : Type ℓ} where
  abbrev pub lookup_in : ℕ → ℕ → Dict (Dict V) → Option V
  lookup_in scope k d = lookup k (lookup_or [] scope d)

  unfoldable pub insert_in : ℕ → ℕ → V → Dict (Dict V) → Dict (Dict V)
  insert_in scope k v d = insert scope (insert k v (lookup_or [] scope d)) d

  unfoldable pub erase_in : ℕ → ℕ → Dict (Dict V) → Dict (Dict V)
  erase_in scope k d = insert scope (erase k (lookup_or [] scope d)) d

  pub lookup_in-insert_in :
      (p k q j : ℕ) (v : V) (d : Dict (Dict V))
      → lookup_in q j (insert_in p k v d) ≡ (if q == p && j == k then some v else lookup_in q j d)
  unfolding insert_in
  lookup_in-insert_in p k q j v d = ground (
    arith,
    lookup-insert p q (insert k v (lookup_or [] p d)) d,
    lookup-insert k j v (lookup_or [] p d),
  )

  pub lookup_in-erase_in :
      (p k q j : ℕ) (d : Dict (Dict V))
      → lookup_in q j (erase_in p k d) ≡ (if q == p && j == k then none else lookup_in q j d)
  unfolding erase_in
  lookup_in-erase_in p k q j d =
      ground (
        arith,
        lookup-insert p q (erase k (lookup_or [] p d)) d,
        lookup-erase k j (lookup_or [] p d),
      )

  pub lookup_in-insert_in_self :
      (p k : ℕ) (v : V) (d : Dict (Dict V)) → lookup_in p k (insert_in p k v d) ≡ some v
  lookup_in-insert_in_self p k v d = ground (arith, lookup_in-insert_in p k p k v d)

  pub lookup_in-erase_in_self :
      (p k : ℕ) (d : Dict (Dict V)) → lookup_in p k (erase_in p k d) ≡ none
  lookup_in-erase_in_self p k d = ground (arith, lookup_in-erase_in p k p k d)
