-- ===== src/Token/Tests.antt =====
-- contracts/flon.token/src/flon.token.cpp at concrete inputs.
use flon_contracts.Base.{
  wrap, subst, ℕ, ◌≡◌, ◌≢◌, ◌⊎◌, refl, true, pos, ◌+ℤ◌, ◌-ℤ◌, ◌≤ℤ◌, ◌∷◌, [], List, ok, arith,
}
use flon_contracts.Chain.{Symbol, asset, Context}
use flon_contracts.Chain.Instance.{checked_assets, valid_symbol, valid_asset, made}
use flon_contracts.Token.{
  TokenState, Account, CurrencyStats, create, issue, retire, transfer, add_balance, sub_balance,
}
use flon_contracts.Token.Balances.{balance}
use flon_contracts.Token.Journal.{posted, journal, run-journal}
use flon_contracts.Token.Supply.{Inv}
use flon_contracts.Token.Actions.{Action, apply, run, run-Inv}
use flon_contracts.Token.Transfers.{transfer_moves, transfer_total}

-- "flon.token"_n, "alice"_n and "bob"_n
abbrev token_contract : ℕ
token_contract = 6658906741110259712

abbrev alice : ℕ
alice = 3773036822876127232

abbrev bob : ℕ
bob = 4408911236036198400

-- FLON with 8 decimals
abbrev flon : Symbol
flon = record { code = 1313819718; precision = 8 }

abbrev signed : Context
signed = record {
  has_auth = λ _. true;
  is_account = λ _. true;
  self = token_contract;
  now = 0;
  now_sec = 0;
  now_slot = 0;
}

abbrev empty_state : TokenState
empty_state = record { stats = []; accounts = []; notified = [] }

abbrev flon_stats : CurrencyStats
flon_stats = record {
  supply = asset (pos 1000) flon;
  max_supply = asset (pos 5000) flon;
  issuer = alice;
}

abbrev alice_row : Account
alice_row = record { balance = asset (pos 1000) flon; payer = alice }

abbrev issued : TokenState
issued = record {
  stats = (1313819718, flon_stats) ∷ [];
  accounts = (alice, (1313819718, alice_row) ∷ []) ∷ [];
  notified = [];
}

abbrev history : List (Context × Action)
history =
    (signed, Action.creates alice (asset (pos 5000) flon))
    ∷ (signed, Action.issues alice (asset (pos 1000) flon) "")
    ∷ (signed, Action.transfers alice bob (asset (pos 300) flon) "")
    ∷ (signed, Action.transfers bob alice (asset (pos 400) flon) "")
    ∷ (signed, Action.retires (asset (pos 200) flon) "")
    ∷ []

empty-Inv : Inv empty_state
empty-Inv = record {
  conserved = λ k. refl;
  nonneg = tt;
  capped = λ k. omega arith;
  cap_range = λ k. (omega arith, omega arith);
}

history_balance : balance alice 1313819718 (run history empty_state) ≡ pos 500
unfolding run apply create issue retire transfer sub_balance add_balance checked_assets valid_symbol
    valid_asset made wrap ◌+ℤ◌ ◌-ℤ◌
history_balance = refl

run-Inv_example : Inv (run history empty_state)
run-Inv_example = run-Inv history empty_state empty-Inv

abbrev bob_row : Account
bob_row = record { balance = asset (pos 300) flon; payer = bob }

abbrev moved : TokenState
moved = record {
  stats = (1313819718, flon_stats) ∷ [];
  accounts =
      (alice, (1313819718, record { balance = asset (pos 700) flon; payer = alice }) ∷ [])
      ∷ (bob, (1313819718, bob_row) ∷ [])
      ∷ [];
  notified = alice ∷ bob ∷ [];
}

moves : transfer signed alice bob (asset (pos 300) flon) "" issued ≡ ok moved
unfolding transfer sub_balance add_balance checked_assets valid_symbol valid_asset ◌+ℤ◌ ◌-ℤ◌
moves = refl

transfer_moves_example :
    (moved.stats ≡ issued.stats)
    × (balance alice 1313819718 moved ≡ pos 1000 -ℤ pos 300)
    × (balance bob 1313819718 moved ≡ pos 0 +ℤ pos 300)
    × (pos 300 ≤ℤ pos 1000)
    × ((p k : ℕ)
        → (p ≢ alice) × (p ≢ bob) ⊎ (k ≢ 1313819718)
        → balance p k moved ≡ balance p k issued)
transfer_moves_example =
    transfer_moves signed alice bob (asset (pos 300) flon) "" issued moved moves

abbrev issuing : List (Context × Action)
issuing =
    (signed, Action.creates alice (asset (pos 5000) flon))
    ∷ (signed, Action.issues alice (asset (pos 1000) flon) "")
    ∷ []

issuing-run : run issuing empty_state ≡ issued
unfolding run apply create issue add_balance checked_assets valid_symbol valid_asset wrap ◌+ℤ◌ ◌-ℤ◌
issuing-run = refl

issued-Inv : Inv issued
issued-Inv = subst Inv issuing-run (run-Inv issuing empty_state empty-Inv)

transfer_total_example :
    (t : TokenState) × (transfer signed alice bob (asset (pos 300) flon) "" issued ≡ ok t)
unfolding checked_assets valid_symbol valid_asset
transfer_total_example =
    transfer_total signed alice bob (asset (pos 300) flon) "" issued flon_stats alice_row issued-Inv
      (omega arith) refl refl refl refl (omega arith) refl (omega arith) refl (omega arith) refl
      (λ other e. ground arith)

run-journal_example :
    balance alice flon.code (run issuing empty_state)
    ≡ posted (journal issuing empty_state) alice flon.code (balance alice flon.code empty_state)
run-journal_example = run-journal issuing empty_state alice flon.code
