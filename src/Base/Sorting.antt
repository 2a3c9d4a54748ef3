-- ===== src/Base/Sorting.antt =====
-- `std::sort` by a number, and the order of an index of a table.
use Prim.Native.Nat.{ℕ, ◌+◌, ◌≤◌}
use mathlib.Core.Path.{◌≡◌, refl, subst}
use mathlib.Core.Bool.{Bool}
use mathlib.Core.Logic.{inl, inr}
use mathlib.Core.List.{List, [], ◌∷◌}
use native.Mathlib.Omega.{arith}
use flon_contracts.Base.Tests.{ltb, if◌then◌else◌, Bool-cases}

abbrev pub size {ℓ} : {A : Type ℓ} → List A → ℕ
size [] = 0
size (x ∷ xs) = 1 + size xs

module _ {ℓ} {A : Type ℓ} where
  abbrev pub All {κ} : (A → Type κ) → List A → Type κ
  All P [] = Unit
  All P (x ∷ xs) = P x × All P xs

  pub All-map {κ μ} :
      (P : A → Type κ) (Q : A → Type μ) (xs : List A) → ((x : A) → P x → Q x) → All P xs → All Q xs
  All-map P Q [] f h = tt
  All-map P Q (x ∷ xs) f h = (f x h.0, All-map P Q xs f h.1)

  pub All-zip {κ μ ν} :
      (P : A → Type κ) (Q : A → Type μ) (R : A → Type ν) (xs : List A)
      → ((x : A) → P x → Q x → R x)
      → All P xs
      → All Q xs
      → All R xs
  All-zip P Q R [] f h k = tt
  All-zip P Q R (x ∷ xs) f h k = (f x h.0 k.0, All-zip P Q R xs f h.1 k.1)

  -- Elements with the same number keep their order.
  unfoldable pub insert_by : (A → ℕ) → A → List A → List A
  insert_by f x [] = x ∷ []
  insert_by f x (y ∷ ys) =
      let rest = insert_by f x ys in if ltb (f y) (f x) then y ∷ rest else x ∷ y ∷ ys

  unfoldable pub sort_by : (A → ℕ) → List A → List A
  sort_by f [] = []
  sort_by f (x ∷ xs) = insert_by f x (sort_by f xs)

  abbrev pub Sorted : (A → ℕ) → List A → Type 0
  Sorted f [] = Unit
  Sorted f (x ∷ xs) = All (λ y. f x ≤ f y) xs × Sorted f xs

  -- The number of elements that pass a test.
  abbrev pub count_of : (A → Bool) → List A → ℕ
  count_of p [] = 0
  count_of p (x ∷ xs) = (if p x then 1 else 0) + count_of p xs

  All-insert_by {κ} :
      (P : A → Type κ) (f : A → ℕ) (x : A) (xs : List A) → P x → All P xs → All P (insert_by f x xs)
  unfolding insert_by
  All-insert_by P f x [] px h = (px, tt)
  All-insert_by P f x (y ∷ ys) px h = elim (Bool-cases (ltb (f y) (f x))) [
    | inl e ↦ rw e (h.0, All-insert_by P f x ys px h.1)
    | inr e ↦ rw e (px, h)
  ]

  pub All-sort_by {κ} : (P : A → Type κ) (f : A → ℕ) (xs : List A) → All P xs → All P (sort_by f xs)
  unfolding sort_by
  All-sort_by P f [] h = tt
  All-sort_by P f (x ∷ xs) h = All-insert_by P f x (sort_by f xs) h.0 (All-sort_by P f xs h.1)

  insert_by-All {κ} :
      (P : A → Type κ) (f : A → ℕ) (x : A) (xs : List A) → All P (insert_by f x xs) → P x × All P xs
  unfolding insert_by
  insert_by-All P f x [] h = h
  insert_by-All P f x (y ∷ ys) h = elim (Bool-cases (ltb (f y) (f x))) [
    | inl e ↦
        let moves : insert_by f x (y ∷ ys) ≡ y ∷ insert_by f x ys = ground (arith, e) in
        let g = subst (All P) moves h in
        let (px, rest) = insert_by-All P f x ys g.1 in (px, (g.0, rest))
    | inr e ↦
        let stays : insert_by f x (y ∷ ys) ≡ x ∷ y ∷ ys = ground (arith, e) in subst (All P) stays h
  ]

  pub sort_by-All {κ} : (P : A → Type κ) (f : A → ℕ) (xs : List A) → All P (sort_by f xs) → All P xs
  unfolding sort_by
  sort_by-All P f [] h = tt
  sort_by-All P f (x ∷ xs) h =
      let (px, rest) = insert_by-All P f x (sort_by f xs) h in (px, sort_by-All P f xs rest)

  insert_by-Sorted : (f : A → ℕ) (x : A) (xs : List A) → Sorted f xs → Sorted f (insert_by f x xs)
  unfolding insert_by
  insert_by-Sorted f x [] h = (tt, tt)
  insert_by-Sorted f x (y ∷ ys) h = elim (Bool-cases (ltb (f y) (f x))) [
    | inl e ↦
        rw e (
          All-insert_by (λ z. f y ≤ f z) f x ys (ground (arith, e)) h.0,
          insert_by-Sorted f x ys h.1,
        )
    | inr e ↦
        let least : f x ≤ f y = ground (arith, e) in
        rw e ((least, All-map _ _ ys (λ z le. omega (arith, le, least)) h.0), h)
  ]

  pub sort_by-Sorted : (f : A → ℕ) (xs : List A) → Sorted f (sort_by f xs)
  unfolding sort_by
  sort_by-Sorted f [] = tt
  sort_by-Sorted f (x ∷ xs) = insert_by-Sorted f x (sort_by f xs) (sort_by-Sorted f xs)

  count_of-insert_by :
      (p : A → Bool) (f : A → ℕ) (x : A) (xs : List A)
      → count_of p (insert_by f x xs) ≡ (if p x then 1 else 0) + count_of p xs
  unfolding insert_by
  count_of-insert_by p f x [] = refl
  count_of-insert_by p f x (y ∷ ys) = ground (arith, count_of-insert_by p f x ys)

  pub count_of-sort_by :
      (p : A → Bool) (f : A → ℕ) (xs : List A) → count_of p (sort_by f xs) ≡ count_of p xs
  unfolding sort_by
  count_of-sort_by p f [] = refl
  count_of-sort_by p f (x ∷ xs) =
      ground (arith, count_of-insert_by p f x (sort_by f xs), count_of-sort_by p f xs)

  size-insert_by : (f : A → ℕ) (x : A) (xs : List A) → size (insert_by f x xs) ≡ 1 + size xs
  unfolding insert_by
  size-insert_by f x [] = refl
  size-insert_by f x (y ∷ ys) = ground (arith, size-insert_by f x ys)

  pub size-sort_by : (f : A → ℕ) (xs : List A) → size (sort_by f xs) ≡ size xs
  unfolding sort_by
  size-sort_by f [] = refl
  size-sort_by f (x ∷ xs) = ground (arith, size-insert_by f x (sort_by f xs), size-sort_by f xs)
