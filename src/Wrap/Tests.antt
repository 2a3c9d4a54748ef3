-- ===== src/Wrap/Tests.antt =====
-- flon.wrap at a concrete transaction.
use flon_contracts.Base.{◌==◌, ℕ, zero, suc, ◌≡◌, refl, true, List, [], ◌∷◌, ok, err, Result}
use flon_contracts.Chain.{Context}
use flon_contracts.System.Finalizers.{Bytes}
use flon_contracts.Msig.{TransactionHeader}
use flon_contracts.Wrap.{Stream, exec}

abbrev number : Bytes → Result (ℕ × Bytes)
number [] = err "the data ends"
number (n ∷ rest) = ok (n, rest)

abbrev header : Bytes → Result (TransactionHeader × Bytes)
header (expiration ∷ delay ∷ rest) =
    ok (record { expiration = expiration; delay_sec = delay }, rest)
header _ = err "the data ends"

-- None, or one action.
abbrev actions : Bytes → Result (List ℕ × Bytes)
actions [] = err "the data ends"
actions (zero ∷ rest) = ok ([], rest)
actions (suc n ∷ rest) = ok (suc n ∷ [], rest)

abbrev stream : Stream
stream = record { read_name = number; read_header = header; read_actions = actions }

abbrev both : Context
both = record {
  has_auth = λ _. true;
  is_account = λ _. true;
  self = 9;
  now = 0;
  now_sec = 0;
  now_slot = 0;
}

abbrev bytes : Bytes
bytes = 7 ∷ 100 ∷ 0 ∷ 0 ∷ 42 ∷ []

sends : exec stream both bytes (3 ∷ []) ≡ ok (3 ∷ 42 ∷ [])
unfolding exec
sends = refl

-- Without the authority of the account that the bytes name nothing is sent.
unsigned : exec stream (record both { has_auth = λ a. a == 9 }) bytes [] ≡ err "missing authority"
unfolding exec
unsigned = refl
