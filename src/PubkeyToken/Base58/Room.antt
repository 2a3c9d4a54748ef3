-- ===== src/PubkeyToken/Base58/Room.antt =====
-- About the base 58 of contracts/pubkey.token/include/pubkey_utils.hpp: the buffer has room for every
-- text of digits, so that all of them are decoded.
use flon_contracts.Base.{ℕ, Bool, true, false, List, [], ◌∷◌, Option, none, some}
use flon_contracts.PubkeyToken.Base58.{map_base58, isspace, skip_spaces, is_end}

-- Digits up to the first space, and spaces from there on.
unfoldable pub is_base58 : List ℕ → Bool
is_base58 [] = true
is_base58 (c ∷ cs) = elim (isspace c) as (λ _. Bool) [
  | true ↦ is_end (skip_spaces (c ∷ cs))
  | false ↦ elim (map_base58 c) as (λ _. Bool) [ none ↦ false | some digit ↦ is_base58 cs ]
]

abbrev pub is_some {ℓ} : {A : Type ℓ} → Option A → Bool
is_some none = false
is_some (some a) = true
