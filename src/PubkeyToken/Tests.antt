-- ===== src/PubkeyToken/Tests.antt =====
-- contracts/pubkey.token at concrete inputs.
use flon_contracts.Base.{
  ℕ, ◌≡◌, refl, true, false, [], ◌∷◌, List, some, Result, ok, err, pos, size, ◌+◌,
}
use flon_contracts.Chain.{asset, Context}
use flon_contracts.Chain.Instance.{checked_assets}
use flon_contracts.PubkeyToken.{
  KeyHost, PubkeyState, initial, flon_symbol, flon_bank, find_account, on_pubkey_recv_token,
  ontransfer,
}
use flon_contracts.PubkeyToken.Base58.{
  map_base58, skip_spaces, leading_ones, spread, digits_loop, big_endian, skip_zeros, decode_base58,
  c_string, room_for, str_to_pubkey,
}
use flon_contracts.PubkeyToken.Base58.Value.{base58_value, big_value, decode_base58-value}
use flon_contracts.PubkeyToken.Locked.{Action, run, run-initial}

-- "2g" is 97.
decodes : decode_base58 (50 ∷ 103 ∷ []) ≡ some (97 ∷ [])
unfolding decode_base58 c_string room_for skip_spaces leading_ones digits_loop map_base58 spread
    big_endian skip_zeros
decodes = refl

decode_base58-value_example :
    big_value 0 (97 ∷ []) ≡ base58_value 0 (skip_spaces (c_string (50 ∷ 103 ∷ [])))
decode_base58-value_example = decode_base58-value (50 ∷ 103 ∷ []) (97 ∷ []) decodes

abbrev sum : List ℕ → ℕ
sum [] = 0
sum (x ∷ xs) = x + sum xs

abbrev host : KeyHost
host = record {
  sha256 = sum;
  key_bytes = λ key. key;
  recovers = λ digest sig key. true;
  name_text = λ n. n ∷ [];
  number_text = λ n. n ∷ [];
}

abbrev at_time : Context
at_time = record {
  has_auth = λ _. true;
  is_account = λ _. false;
  self = 9;
  now = 3000000;
  now_sec = 3;
  now_slot = 6;
}

-- "FU4warrnW18Vosf1nQapWhjwakKRCS3HkqBLUSjQa5zGa6VKX4sx"
abbrev key_text : List ℕ
key_text =
    70 ∷ 85 ∷ 52 ∷ 119 ∷ 97 ∷ 114 ∷ 114 ∷ 110 ∷ 87 ∷ 49 ∷ 56 ∷ 86 ∷ 111 ∷ 115 ∷ 102 ∷ 49 ∷ 110 ∷ 81
    ∷ 97 ∷ 112 ∷ 87 ∷ 104 ∷ 106 ∷ 119 ∷ 97 ∷ 107 ∷ 75 ∷ 82 ∷ 67 ∷ 83 ∷ 51 ∷ 72 ∷ 107 ∷ 113 ∷ 66 ∷ 76
    ∷ 85 ∷ 83 ∷ 106 ∷ 81 ∷ 97 ∷ 53 ∷ 122 ∷ 71 ∷ 97 ∷ 54 ∷ 86 ∷ 75 ∷ 88 ∷ 52 ∷ 115 ∷ 120 ∷ []

-- A transfer of the contract's own token is refused with the message that only it is supported.
refuses :
    ontransfer host at_time flon_bank 7 9 (asset (pos 5000) flon_symbol) key_text (initial 9)
    ≡ err "Only FLON tokens are supported"
unfolding ontransfer
refuses = refl

abbrev kept_rows : Result PubkeyState → ℕ
kept_rows (ok s) = size s.accounts
kept_rows (err m) = 0

-- A transfer of another token is kept.
keeps :
    kept_rows (
      ontransfer host at_time flon_bank 7 9
        (asset (pos 5000) (record { code = 5; precision = 4 }))
        key_text
        (initial 9))
    ≡ 1
unfolding ontransfer on_pubkey_recv_token find_account str_to_pubkey decode_base58 c_string room_for
    skip_spaces leading_ones digits_loop map_base58 spread big_endian skip_zeros
keeps = refl

abbrev actions : List Action
actions =
    Action.receives at_time flon_bank 7 9 (asset (pos 5000) (record { code = 5; precision = 4 }))
      key_text
    ∷ Action.creates at_time 8 (2 ∷ []) 77 []
    ∷ []

run-initial_example : (run host (λ _. false) (λ _. false) actions (initial 9)).sent ≡ []
run-initial_example = run-initial host (λ _. false) (λ _. false) actions 9
