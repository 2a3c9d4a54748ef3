-- ===== src/System/Finalizers/Search.antt =====
-- About the search of `actfinkey` in contracts/flon.system/src/finalizer_key.cpp.
use flon_contracts.Base.{
  ℕ, zero, suc, ◌+◌, ◌-◌, ◌/◌, ◌≤◌, ◌<◌, ◌≡◌, refl, subst, Bool, List, [], ◌∷◌, none, some, map,
  ◌==◌, ltb, if◌then◌else◌, arith, Bool-cases, inl, inr, size, Sorted, All, count_of,
}
use flon_contracts.System.Finalizers.{
  FinalizerAuthInfo, FinalizerKeyInfo, drop, lower_bound_loop, replace_at, replace_entry,
}

-- The entry of the finalizer whose key becomes active, and every other entry as it is.
abbrev pub swapped : ℕ → FinalizerKeyInfo → FinalizerAuthInfo → FinalizerAuthInfo
swapped active k e =
    if e.key_id == active
    then record {
      key_id = k.id;
      fin_authority = record e.fin_authority { public_key = k.finalizer_key_binary };
    }
    else e

abbrev pub has_id : ℕ → FinalizerAuthInfo → Bool
has_id i e = e.key_id == i

map-swapped :
    (active : ℕ) (k : FinalizerKeyInfo) (entries : List FinalizerAuthInfo)
    → count_of (has_id active) entries ≡ 0
    → map (swapped active k) entries ≡ entries
map-swapped active k [] h = refl
map-swapped active k (e ∷ rest) h = ground (arith, map-swapped active k rest)

none_above :
    (active i : ℕ) (entries : List FinalizerAuthInfo)
    → active < i
    → All (λ e. i ≤ e.key_id) entries
    → count_of (has_id active) entries ≡ 0
none_above active i [] l h = refl
none_above active i (e ∷ rest) l h = ground (arith, none_above active i rest l h.1, h.0)

-- The number of entries in front whose IDs are lower.
abbrev scan : ℕ → List FinalizerAuthInfo → ℕ
scan active [] = 0
scan active (e ∷ rest) = if ltb e.key_id active then 1 + scan active rest else 0

scan-le-size : (active : ℕ) (entries : List FinalizerAuthInfo) → scan active entries ≤ size entries
scan-le-size active [] = omega arith
scan-le-size active (e ∷ rest) = ground (arith, scan-le-size active rest)

All-drop :
    (P : FinalizerAuthInfo → Type 0) (n : ℕ) (entries after : List FinalizerAuthInfo)
    (m : FinalizerAuthInfo)
    → All P entries
    → drop n entries ≡ m ∷ after
    → P m
All-drop P n [] after m h e = ground arith
All-drop P zero (x ∷ xs) after m h e = let same : x ≡ m = ground arith in subst P same h.0
All-drop P (suc n) (x ∷ xs) after m h e = All-drop P n xs after m h.1 e

-- What stands at an index of a sorted vector, where its ID is lower.
scan_past :
    (active n : ℕ) (entries after : List FinalizerAuthInfo) (m : FinalizerAuthInfo)
    → Sorted (λ e. e.key_id) entries
    → drop n entries ≡ m ∷ after
    → m.key_id < active
    → (scan active entries ≡ n + 1 + scan active after)
      × (size entries ≡ n + 1 + size after)
      × Sorted (λ e. e.key_id) after
scan_past active n [] after m h e l = ground arith
scan_past active zero (x ∷ xs) after m h e l =
    let same : xs ≡ after = ground arith in
    let here : x.key_id < active = ground arith in
    (ground (arith, same, here), ground (arith, same), subst (Sorted (λ e. e.key_id)) same h.1)
scan_past active (suc n) (x ∷ xs) after m h e l =
    let (past, whole, sorted) = scan_past active n xs after m h.1 e l in
    let lower : x.key_id ≤ m.key_id = All-drop (λ y. x.key_id ≤ y.key_id) n xs after m h.0 e in
    (ground (arith, past, lower), omega (arith, whole), sorted)

scan_stop :
    (active n : ℕ) (entries after : List FinalizerAuthInfo) (m : FinalizerAuthInfo)
    → drop n entries ≡ m ∷ after
    → active ≤ m.key_id
    → scan active entries ≤ n
scan_stop active n [] after m e l = omega arith
scan_stop active zero (x ∷ xs) after m e l = let same : x ≡ m = ground arith in ground (arith, same)
scan_stop active (suc n) (x ∷ xs) after m e l = ground (arith, scan_stop active n xs after m e l)

drop_inside :
    (n : ℕ) (entries : List FinalizerAuthInfo)
    → n < size entries
    → (m : FinalizerAuthInfo) × (after : List FinalizerAuthInfo) × (drop n entries ≡ m ∷ after)
drop_inside n [] h = absurd (omega (arith, h))
drop_inside zero (x ∷ xs) h = (x, xs, refl)
drop_inside (suc n) (x ∷ xs) h = drop_inside n xs (omega (arith, h))

-- With fuel for all entries that are left, the binary search of a sorted vector finds the first entry
-- whose ID is not lower.
lower_bound_loop-scan :
    (fuel active len : ℕ) (entries : List FinalizerAuthInfo)
    → Sorted (λ e. e.key_id) entries
    → scan active entries ≤ len
    → len ≤ size entries
    → len ≤ fuel
    → lower_bound_loop fuel active len entries ≡ scan active entries
unfolding lower_bound_loop
lower_bound_loop-scan zero active len entries h low inside enough = omega (arith, low, enough)
lower_bound_loop-scan (suc fuel) active len entries h low inside enough =
    elim (Bool-cases (len == 0)) [
      | inl e ↦
          (let nothing : len ≡ 0 = ground (arith, e) in
            rw (e, lower_bound_loop) (omega (arith, low, nothing)))
      | inr e ↦
          let positive : 0 < len = ground (arith, e) in
          let (m, after, at) = drop_inside (len / 2) entries (omega (arith, positive, inside)) in
          elim (Bool-cases (ltb m.key_id active)) [
            | inl l ↦
                let (past, whole, sorted) =
                  scan_past active (len / 2) entries after m h at (ground (arith, l)) in
                let rest =
                  lower_bound_loop-scan fuel active (len - (len / 2 + 1)) after sorted
                    (omega (arith, low, past)) (omega (arith, inside, whole))
                    (omega (arith, enough, positive)) in
                rw (e, at, l, lower_bound_loop) (omega (arith, rest, past))
            | inr l ↦
                let stop = scan_stop active (len / 2) entries after m at (ground (arith, l)) in
                let rest =
                  lower_bound_loop-scan fuel active (len / 2) entries h stop (omega (arith, inside))
                    (omega (arith, enough, positive)) in
                rw (e, at, l, lower_bound_loop) rest
          ]
    ]

replace_at-swapped :
    (active : ℕ) (k : FinalizerKeyInfo) (entries : List FinalizerAuthInfo)
    → Sorted (λ e. e.key_id) entries
    → count_of (has_id active) entries ≤ 1
    → elim (replace_at (scan active entries) active k entries) as (λ _. List FinalizerAuthInfo) [
      | none ↦ entries
      | some changed ↦ changed
    ]
      ≡ map (swapped active k) entries
unfolding replace_at
replace_at-swapped active k [] h u = refl
replace_at-swapped active k (e ∷ rest) h u = ground (
  arith,
  replace_at-swapped active k rest h.1,
  map-swapped active k rest,
  none_above active e.key_id rest,
)

-- The binary search for the entry of the key that was active changes what a pass over all entries
-- would change, when the entries are sorted by their IDs and only one has this ID.
pub replace_entry-swapped :
    (active : ℕ) (k : FinalizerKeyInfo) (entries : List FinalizerAuthInfo)
    → Sorted (λ e. e.key_id) entries
    → count_of (has_id active) entries ≤ 1
    → elim (replace_entry active k entries) as (λ _. List FinalizerAuthInfo) [
      | none ↦ entries
      | some changed ↦ changed
    ]
      ≡ map (swapped active k) entries
unfolding replace_entry
replace_entry-swapped active k entries h u =
    let found =
      lower_bound_loop-scan (size entries) active (size entries) entries h
        (scan-le-size active entries) (omega arith) (omega arith) in
    rw found (replace_at-swapped active k entries h u)
