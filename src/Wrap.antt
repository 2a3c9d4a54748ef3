-- ===== src/Wrap.antt =====
-- contracts/flon.wrap/src/flon.wrap.cpp: the execution of a transaction for another account.
mod Tests
use flon_contracts.Base.{
  ℕ, ◌≡◌, ◌↔◌, true, Bool, false, List, [], ◌∷◌, ◌++◌, Result, ok, ◌>>=◌, ◌>>◌, check, arith, inl,
  inr, Result-cases,
}
use flon_contracts.Chain.{Context}
use flon_contracts.System.Finalizers.{Bytes}
use flon_contracts.Msig.{TransactionHeader}

-- `_ds >>`: the reading of a value from the bytes of the action, with the bytes that are left. An
-- action is its number.
pub record Stream : Type 0 where
  pub read_name : Bytes → Result (ℕ × Bytes)
  pub read_header : Bytes → Result (TransactionHeader × Bytes)
  pub read_actions : Bytes → Result (List ℕ × Bytes)

abbrev is_empty : List ℕ → Bool
is_empty [] = true
is_empty (x ∷ xs) = false

-- The state is the actions that have been sent, in order.
unfoldable pub exec : Stream → Context → Bytes → List ℕ → Result (List ℕ)
exec stream c data_stream sent = do
  check (c.has_auth c.self) "missing authority"
  executer ← stream.read_name data_stream
  check (c.has_auth executer.0) "missing authority"
  trx_header ← stream.read_header executer.1
  context_free_actions ← stream.read_actions trx_header.1
  check (is_empty context_free_actions.0)
      "not allowed to `exec` a transaction with context-free actions"
  actions ← stream.read_actions context_free_actions.1
  ok (sent ++ actions.0)
