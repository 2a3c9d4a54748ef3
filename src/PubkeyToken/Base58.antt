-- ===== src/PubkeyToken/Base58.antt =====
-- contracts/pubkey.token/include/pubkey_utils.hpp: public keys in base 58.
pub mod Value
pub mod Room
use flon_contracts.Base.{
  ℕ, zero, suc, ◌+◌, ◌-◌, ◌*◌, ◌/◌, ◌%◌, ◌^◌, ◌<◌, ◌≤◌, ◌≡◌, ◌⊎◌, refl, Bool, true, false, not,
  ◌&&◌, ◌||◌, List, [], ◌∷◌, ◌++◌, Option, none, some, ltb, leb, ◌==◌, if◌then◌else◌, size, Result,
  ok, err, ◌>>=◌, ◌>>◌, check, or_fail, arith, Bool-cases, Option-cases, inl, inr,
}

-- `mapBase58`, as the ranges of characters that it stands for.
unfoldable pub map_base58 : ℕ → Option ℕ
map_base58 c =
    if leb 49 c && leb c 57
    then some (c - 49)
    else if leb 65 c && leb c 72
    then some (c - 56)
    else if leb 74 c && leb c 78
    then some (c - 57)
    else if leb 80 c && leb c 90
    then some (c - 58)
    else if leb 97 c && leb c 107
    then some (c - 64)
    else if leb 109 c && leb c 122
    then some (c - 65)
    else none

-- `isspace` in the C locale.
abbrev pub isspace : ℕ → Bool
isspace c = c == 32 || (leb 9 c && leb c 13)

unfoldable pub skip_spaces : List ℕ → List ℕ
skip_spaces [] = []
skip_spaces (c ∷ cs) = let rest = skip_spaces cs in if isspace c then rest else c ∷ cs

-- The number of leading '1's, and what follows them.
unfoldable pub leading_ones : List ℕ → ℕ × List ℕ
leading_ones [] = (0, [])
leading_ones (c ∷ cs) =
    let rest = leading_ones cs in if c == 49 then (suc rest.0, rest.1) else (0, c ∷ cs)

abbrev pub zeros : ℕ → List ℕ
zeros zero = []
zeros (suc n) = 0 ∷ zeros n

-- What the inner loop leaves: the bytes from the lowest on, the carry, and the last `i`.
pub record Spread : Type 0 where
  pub bytes : List ℕ
  pub carry : ℕ
  pub used : ℕ

unfoldable pub spread : ℕ → ℕ → ℕ → List ℕ → Spread
spread length carry i [] = record { bytes = []; carry = carry; used = i }
spread length carry i (b ∷ bytes) =
    let sum = carry + 58 * b in
    let rest = spread length (sum / 256) (i + 1) bytes in
    if not (carry == 0) || ltb i length
    then record rest { bytes = sum % 256 ∷ rest.bytes }
    else record { bytes = b ∷ bytes; carry = carry; used = i }

-- What the outer loop leaves: the bytes from the lowest on, how many are in use, and the text after
-- the digits.
pub record Decoded : Type 0 where
  pub b256 : List ℕ
  pub length : ℕ
  pub rest : List ℕ

unfoldable pub digits_loop : ℕ → List ℕ → List ℕ → Option Decoded
digits_loop length b256 [] = some (record { b256 = b256; length = length; rest = [] })
digits_loop length b256 (c ∷ cs) = elim (isspace c) as (λ _. Option Decoded) [
  | true ↦ some (record { b256 = b256; length = length; rest = c ∷ cs })
  | false ↦ elim (map_base58 c) as (λ _. Option Decoded) [
    | none ↦ none
    | some digit ↦
        let s = spread length digit 0 b256 in
        elim (s.carry == 0) as (λ _. Option Decoded) [
          | true ↦ digits_loop s.used s.bytes cs
          | false ↦ none
        ]
  ]
]

abbrev pub take : ℕ → List ℕ → List ℕ
take zero xs = []
take (suc n) [] = []
take (suc n) (x ∷ xs) = x ∷ take n xs

-- The lowest bytes in use, turned around, without the zeros in front.
unfoldable pub big_endian : List ℕ → List ℕ → List ℕ
big_endian acc [] = acc
big_endian acc (b ∷ bytes) = big_endian (b ∷ acc) bytes

unfoldable pub skip_zeros : List ℕ → List ℕ
skip_zeros [] = []
skip_zeros (b ∷ bytes) = let rest = skip_zeros bytes in if b == 0 then rest else b ∷ bytes

abbrev pub is_end : List ℕ → Bool
is_end [] = true
is_end (c ∷ cs) = false

-- The characters up to the first NUL: the text is read as a C string.
unfoldable pub c_string : List ℕ → List ℕ
c_string [] = []
c_string (c ∷ cs) = let rest = c_string cs in if c == 0 then [] else c ∷ rest

-- `strlen( psz ) * 733 / 1000 + 1`, in the 32 bits of `size_t`.
unfoldable pub room_for : List ℕ → ℕ
room_for digits = size digits * 733 % 2 ^ 32 / 1000 + 1

unfoldable pub decode_base58 : List ℕ → Option (List ℕ)
decode_base58 str =
    let (zeroes, digits) = leading_ones (skip_spaces (c_string str)) in
    let room = room_for digits in
    elim (digits_loop 0 (zeros room) digits) as (λ _. Option (List ℕ)) [
      | none ↦ none
      | some d ↦
          if is_end (skip_spaces d.rest)
          then some (zeros zeroes ++ skip_zeros (big_endian [] (take d.length d.b256)))
          else none
    ]

abbrev pub starts_with : List ℕ → List ℕ → Bool
starts_with [] text = true
starts_with (c ∷ cs) [] = false
starts_with (c ∷ cs) (d ∷ ds) = c == d && starts_with cs ds

abbrev pub drop : ℕ → List ℕ → List ℕ
drop zero xs = xs
drop (suc n) [] = []
drop (suc n) (x ∷ xs) = drop n xs

-- The prefix is "FU". The key is the first 33 of the 37 bytes.
unfoldable pub str_to_pubkey : List ℕ → Result (List ℕ)
str_to_pubkey pubkey = do
  check (starts_with (70 ∷ 85 ∷ []) pubkey) "Invalid public key prefix"
  vch ← or_fail (decode_base58 (drop 2 pubkey)) "Failed to decode base58 for pubkey"
  check (size vch == 37) "Invalid public key length"
  ok (take 33 vch)
