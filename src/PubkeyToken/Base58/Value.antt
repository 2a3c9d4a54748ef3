-- ===== src/PubkeyToken/Base58/Value.antt =====
-- About the base 58 of contracts/pubkey.token/include/pubkey_utils.hpp: the numbers it stands for.
use flon_contracts.Base.{
  ℕ, zero, suc, ◌+◌, ◌*◌, ◌/◌, ◌≤◌, ◌≡◌, refl, ◌∙◌, ap, sym, subst, true, false, not, ◌||◌, List,
  [], ◌∷◌, ◌++◌, none, some, ltb, ◌==◌, arith, Bool-cases, Option-cases, inl, inr,
}
use flon_contracts.PubkeyToken.Base58.{
  map_base58, isspace, skip_spaces, leading_ones, zeros, spread, Decoded, digits_loop, take,
  big_endian, skip_zeros, decode_base58, c_string, room_for,
}

-- The number that bytes stand for, the lowest first.
abbrev pub value : List ℕ → ℕ
value [] = 0
value (b ∷ bytes) = b + 256 * value bytes

-- From `length` on there are zeros; the list starts at `i`.
abbrev pub UsedFrom : ℕ → ℕ → List ℕ → Type 0
UsedFrom i length [] = Unit {0}
UsedFrom i length (b ∷ bytes) = (length ≤ i → b ≡ 0) × UsedFrom (i + 1) length bytes

pub unused_value :
    (i length : ℕ) (bytes : List ℕ) → length ≤ i → UsedFrom i length bytes → value bytes ≡ 0
unused_value i length [] le u = refl
unused_value i length (b ∷ bytes) le u =
    omega (arith, u.0 le, unused_value (i + 1) length bytes (omega (arith, le)) u.1)

pub zero_used : (i length : ℕ) (bytes : List ℕ) → value bytes ≡ 0 → UsedFrom i length bytes
zero_used i length [] h = tt
zero_used i length (b ∷ bytes) h =
    (λ _. omega (arith, h), zero_used (i + 1) length bytes (omega (arith, h)))

spread-used : (length carry i : ℕ) (bytes : List ℕ) → i ≤ (spread length carry i bytes).used
unfolding spread
spread-used length carry i [] = omega arith
spread-used length carry i (b ∷ bytes) =
    ground (arith, spread-used length ((carry + 58 * b) / 256) (i + 1) bytes)

-- The inner loop multiplies by 58 and adds the digit.
pub spread-value :
    (length carry i : ℕ) (bytes : List ℕ)
    → UsedFrom i length bytes
    → (spread length carry i bytes).carry ≡ 0
    → (value (spread length carry i bytes).bytes ≡ carry + 58 * value bytes)
      × UsedFrom i (spread length carry i bytes).used (spread length carry i bytes).bytes
unfolding spread
spread-value length carry i [] u h = (omega (arith, h), tt)
spread-value length carry i (b ∷ bytes) u h = elim (Bool-cases (not (carry == 0) || ltb i length)) [
  | inl goes ↦
      let sum = carry + 58 * b in
      let r = spread length (sum / 256) (i + 1) bytes in
      let left : r.carry ≡ 0 = ground (arith, goes, h) in
      let (v, w) = spread-value length (sum / 256) (i + 1) bytes u.1 left in
      let after = spread-used length (sum / 256) (i + 1) bytes in
      rw (goes, spread) (omega (arith, v), (λ le. omega (arith, le, after), w))
  | inr stops ↦
      let low : length ≤ i = ground (arith, stops) in
      let empty : value (b ∷ bytes) ≡ 0 = unused_value i length (b ∷ bytes) low u in
      let none_left : carry ≡ 0 = ground (arith, stops) in
      rw (stops, spread) (omega (arith, empty, none_left), zero_used i i (b ∷ bytes) empty)
]

-- The number that a text of digits stands for, up to the first space, after a number.
abbrev pub base58_value : ℕ → List ℕ → ℕ
base58_value n [] = n
base58_value n (c ∷ cs) = elim (isspace c) as (λ _. ℕ) [
  | true ↦ n
  | false ↦ elim (map_base58 c) as (λ _. ℕ) [
    | none ↦ n
    | some digit ↦ base58_value (digit + 58 * n) cs
  ]
]

next_digit :
    (n c digit : ℕ) (cs : List ℕ)
    → isspace c ≡ false
    → map_base58 c ≡ some digit
    → base58_value n (c ∷ cs) ≡ base58_value (digit + 58 * n) cs
next_digit n c digit cs other e = ground (arith, other, e)

digits_loop-value :
    (length : ℕ) (b256 cs : List ℕ) (d : Decoded)
    → UsedFrom 0 length b256
    → digits_loop length b256 cs ≡ some d
    → (value d.b256 ≡ base58_value (value b256) cs) × UsedFrom 0 d.length d.b256
unfolding digits_loop
digits_loop-value length b256 [] d u h =
    let same : record { b256 = b256; length = length; rest = [] } ≡ d = ground arith in
    subst (λ x. (value x.b256 ≡ value b256) × UsedFrom 0 x.length x.b256) same (refl, u)
digits_loop-value length b256 (c ∷ cs) d u h = elim (Bool-cases (isspace c)) [
  | inl space ↦
      let same : record { b256 = b256; length = length; rest = c ∷ cs } ≡ d = ground arith in
      let stop : base58_value (value b256) (c ∷ cs) ≡ value b256 = ground (arith, space) in
      subst (λ x. (value x.b256 ≡ base58_value (value b256) (c ∷ cs)) × UsedFrom 0 x.length x.b256)
        same (sym stop, u)
  | inr other ↦ elim (Option-cases (map_base58 c)) [
    | inl bad ↦ ground arith
    | inr (digit, e) ↦ elim (Bool-cases ((spread length digit 0 b256).carry == 0)) [
      | inr full ↦ ground arith
      | inl fits ↦
          let (v, w) = spread-value length digit 0 b256 u (ground (arith, fits)) in
          let (x, y) =
            digits_loop-value (spread length digit 0 b256).used (spread length digit 0 b256).bytes
              cs d w (ground arith) in
          (x ∙ ap (λ n. base58_value n cs) v ∙ sym (next_digit (value b256) c digit cs other e), y)
    ]
  ]
]

-- The number that bytes stand for, the highest first, after a number.
abbrev pub big_value : ℕ → List ℕ → ℕ
big_value n [] = n
big_value n (b ∷ bytes) = big_value (b + 256 * n) bytes

big_value-big_endian :
    (acc bytes : List ℕ) → big_value 0 (big_endian acc bytes) ≡ big_value (value bytes) acc
unfolding big_endian
big_value-big_endian acc [] = refl
big_value-big_endian acc (b ∷ bytes) = big_value-big_endian (b ∷ acc) bytes

big_value-skip_zeros : (bytes : List ℕ) → big_value 0 (skip_zeros bytes) ≡ big_value 0 bytes
unfolding skip_zeros
big_value-skip_zeros [] = refl
big_value-skip_zeros (b ∷ bytes) = elim (Bool-cases (b == 0)) [
  | inl zero_byte ↦
      let same : b ≡ 0 = ground (arith, zero_byte) in
      rw (zero_byte, skip_zeros)
        (big_value-skip_zeros bytes ∙ ap (λ n. big_value n bytes) (omega (arith, same)))
  | inr other ↦ rw (other, skip_zeros) refl
]

big_value-zeros : (n : ℕ) (bytes : List ℕ) → big_value 0 (zeros n ++ bytes) ≡ big_value 0 bytes
big_value-zeros zero bytes = refl
big_value-zeros (suc n) bytes =
    ap (λ m. big_value m (zeros n ++ bytes)) (omega arith) ∙ big_value-zeros n bytes

pub value-zeros : (n : ℕ) → value (zeros n) ≡ 0
value-zeros zero = refl
value-zeros (suc n) = omega (arith, value-zeros n)

value-take :
    (n i length : ℕ) (bytes : List ℕ)
    → n + i ≡ length
    → UsedFrom i length bytes
    → value (take n bytes) ≡ value bytes
value-take zero i length bytes e u = sym (unused_value i length bytes (omega (arith, e)) u)
value-take (suc n) i length [] e u = refl
value-take (suc n) i length (b ∷ bytes) e u =
    omega (arith, value-take n (i + 1) length bytes (omega (arith, e)) u.1)

base58_value-leading_ones : (cs : List ℕ) → base58_value 0 (leading_ones cs).1 ≡ base58_value 0 cs
unfolding leading_ones map_base58
base58_value-leading_ones [] = refl
base58_value-leading_ones (c ∷ cs) = elim (Bool-cases (c == 49)) [
  | inl one ↦
      let same : c ≡ 49 = ground (arith, one) in
      let digit : map_base58 c ≡ some 0 = subst (λ x. map_base58 x ≡ some 0) (sym same) refl in
      rw (one, leading_ones)
        (base58_value-leading_ones cs
          ∙ ap (λ n. base58_value n cs) (omega arith)
          ∙ sym (next_digit 0 c 0 cs (ground (arith, same)) digit))
  | inr other ↦ rw (other, leading_ones) refl
]

-- A text, up to its first NUL, that is decoded stands for the number that the bytes stand for.
pub decode_base58-value :
    (psz vch : List ℕ)
    → decode_base58 psz ≡ some vch
    → big_value 0 vch ≡ base58_value 0 (skip_spaces (c_string psz))
unfolding decode_base58
decode_base58-value psz vch h =
    let digits = (leading_ones (skip_spaces (c_string psz))).1 in
    let room = zeros (room_for digits) in
    elim (Option-cases (digits_loop 0 room digits)) [
      | inl e ↦ ground arith
      | inr (d, e) ↦
          let start = zero_used 0 0 room (value-zeros (room_for digits)) in
          let (v, w) = digits_loop-value 0 room digits d start e in
          let out : zeros (leading_ones (skip_spaces (c_string psz))).0
                ++ skip_zeros (big_endian [] (take d.length d.b256))
              ≡ vch =
            ground arith in
          ap (big_value 0) (sym out)
          ∙ big_value-zeros (leading_ones (skip_spaces (c_string psz))).0
              (skip_zeros (big_endian [] (take d.length d.b256)))
          ∙ big_value-skip_zeros (big_endian [] (take d.length d.b256))
          ∙ big_value-big_endian [] (take d.length d.b256)
          ∙ value-take d.length 0 d.length d.b256 (omega arith) w
          ∙ v
          ∙ ap (λ n. base58_value n digits) (value-zeros (room_for digits))
          ∙ base58_value-leading_ones (skip_spaces (c_string psz))
    ]
