-- ===== src/Token/Actions.antt =====
-- The actions of the token contract as a type, and histories of them. An action that fails is
-- rolled back by the chain.
use flon_contracts.Base.{ℕ, ◌≡◌, List, [], ◌∷◌, String, Result, ok, err, Result-cases, inl, inr}
use flon_contracts.Chain.{Symbol, Asset, AssetOps, Context}
use flon_contracts.Token.{TokenState, create, issue, retire, transfer, open_account, close}
use flon_contracts.Token.Supply.{Inv, issue-Inv, retire-Inv, transfer-Inv}
use flon_contracts.Token.Openings.{create-Inv, open_account-Inv, close-Inv}

pub data Action : Type 0 where
  creates : ℕ → Asset → Action
  issues : ℕ → Asset → String → Action
  retires : Asset → String → Action
  transfers : ℕ → ℕ → Asset → String → Action
  opens : ℕ → Symbol → ℕ → Action
  closes : ℕ → Symbol → Action

abbrev pub after : {S : Type 0} → S → Result S → S
after s (ok t) = t
after s (err e) = s

module _ ⦃ops : AssetOps⦄ where
  unfoldable pub apply : Context → Action → TokenState → Result TokenState
  apply c (creates issuer limit) s = create c issuer limit s
  apply c (issues to q memo) s = issue c to q memo s
  apply c (retires q memo) s = retire c q memo s
  apply c (transfers from to q memo) s = transfer c from to q memo s
  apply c (opens owner symbol payer) s = open_account c owner symbol payer s
  apply c (closes owner symbol) s = close c owner symbol s

  unfoldable pub run : List (Context × Action) → TokenState → TokenState
  run [] s = s
  run ((c, a) ∷ rest) s = run rest (after s (apply c a s))

  pub apply-Inv : (c : Context) (a : Action) (s t : TokenState) → Inv s → apply c a s ≡ ok t → Inv t
  unfolding apply
  apply-Inv c (creates issuer limit) s t v h = create-Inv c issuer limit s t v h
  apply-Inv c (issues to q memo) s t v h = issue-Inv c to q memo s t v h
  apply-Inv c (retires q memo) s t v h = retire-Inv c q memo s t v h
  apply-Inv c (transfers from to q memo) s t v h = transfer-Inv c from to q memo s t v h
  apply-Inv c (opens owner symbol payer) s t v h = open_account-Inv c owner symbol payer s t v h
  apply-Inv c (closes owner symbol) s t v h = close-Inv c owner symbol s t v h

  -- After any history of actions, by anybody and in any order, the supply of every currency is the
  -- sum of its balances and at most its cap, which is a valid amount, and no balance is negative, if
  -- that held before.
  pub run-Inv : (history : List (Context × Action)) (s : TokenState) → Inv s → Inv (run history s)
  unfolding run
  run-Inv [] s v = v
  run-Inv ((c, a) ∷ rest) s v = elim (Result-cases (apply c a s)) [
    | inl (t, e) ↦ rw e (run-Inv rest t (apply-Inv c a s t v e))
    | inr (m, e) ↦ rw e (run-Inv rest s v)
  ]
