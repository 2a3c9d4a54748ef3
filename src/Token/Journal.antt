-- ===== src/Token/Journal.antt =====
-- The actions of contracts/flon.token/src/flon.token.cpp as entries of a journal: the abstract view
-- of the contract, which has no rows, payers or records of currencies.
use flon_contracts.Base.{
  ℕ, ◌≡◌, refl, sym, ap, ◌∙◌, List, [], ◌∷◌, ◌++◌, none, some, ℤ, pos, ◌+ℤ◌, ◌-ℤ◌, ◌&&◌, ◌==◌,
  if◌then◌else◌, ok, err, lookup, erase, lookup-insert, lookup-erase, arith, Option-cases,
  Result-cases, inl, inr, String,
}
use flon_contracts.Chain.{Asset, asset, AssetOps, Context}
use flon_contracts.Token.{
  TokenState, Account, CurrencyStats, scope, set_stats, create, issue, open_account, close,
}
use flon_contracts.Token.Balances.{
  balance, balance-set_account, sub_balance-Moved, add_balance-Moved,
}
use flon_contracts.Token.Steps.{notifying, transfer_inv, issue_inv, retire_inv}
use flon_contracts.Token.Actions.{Action, apply, run}

-- One balance of one currency changes by an amount.
pub record Posting : Type 0 where
  pub owner : ℕ
  pub code : ℕ
  pub delta : ℤ

abbrev pub posting : ℕ → Asset → ℤ → Posting
posting owner q delta = record { owner = owner; code = q.symbol.code; delta = delta }

-- What a balance of a currency becomes by the postings.
abbrev pub posted : List Posting → ℕ → ℕ → ℤ → ℤ
posted [] p k x = x
posted (e ∷ es) p k x = posted es p k (if p == e.owner && k == e.code then x +ℤ e.delta else x)

posted-++ :
    (es fs : List Posting) (p k : ℕ) (x : ℤ)
    → posted (es ++ fs) p k x ≡ posted fs p k (posted es p k x)
posted-++ [] fs p k x = refl
posted-++ (e ∷ es) fs p k x =
    posted-++ es fs p k (if p == e.owner && k == e.code then x +ℤ e.delta else x)

-- The entry of an action that succeeds.
abbrev pub entry : Action → TokenState → List Posting
entry (Action.creates issuer limit) s = []
entry (Action.issues to q memo) s = posting to q q.amount ∷ []
entry (Action.retires q memo) s = elim (lookup q.symbol.code s.stats) as (λ _. List Posting) [
  | none ↦ []
  | some st ↦ posting st.issuer q (pos 0 -ℤ q.amount) ∷ []
]
entry (Action.transfers from to q memo) s =
    posting from q (pos 0 -ℤ q.amount) ∷ posting to q q.amount ∷ []
entry (Action.opens owner symbol payer) s = []
entry (Action.closes owner symbol) s = []

module _ ⦃ops : AssetOps⦄ where
  -- The entries of a history, in order; an action that fails has none.
  unfoldable pub journal : List (Context × Action) → TokenState → List Posting
  journal [] s = []
  journal ((c, a) ∷ rest) s = elim (apply c a s) as (λ _. List Posting) [
    | ok t ↦ entry a s ++ journal rest t
    | err m ↦ journal rest s
  ]

  issuer_eq :
      (c : Context) (to : ℕ) (q : Asset) (memo : String) (s t : TokenState) (st : CurrencyStats)
      → lookup q.symbol.code s.stats ≡ some st
      → issue c to q memo s ≡ ok t
      → to ≡ st.issuer
  unfolding issue
  issuer_eq c to q memo s t st e h = ground arith

  pub apply-posted :
      (c : Context) (a : Action) (s t : TokenState) (p k : ℕ)
      → apply c a s ≡ ok t
      → balance p k t ≡ posted (entry a s) p k (balance p k s)
  unfolding apply create open_account close
  apply-posted c (Action.creates issuer limit) s t p k h = ground arith
  apply-posted c (Action.issues to q memo) s t p k h =
      let (st, supply, found, _, _, _, credit) = issue_inv c to q memo s t h in
      let m =
        add_balance-Moved st.issuer st.issuer q
          (set_stats q.symbol.code (record st { supply = supply }) s) t credit in
      rw (issuer_eq c to q memo s t st found h) (m.balances p k)
  apply-posted c (Action.retires q memo) s t p k h =
      let (st, supply, found, _, _, debit) = retire_inv c q memo s t h in
      let (m, _) =
        sub_balance-Moved st.issuer q (set_stats q.symbol.code (record st { supply = supply }) s) t
          debit in
      rw (found, entry) (m.balances p k)
  apply-posted c (Action.transfers from to q memo) s t p k h =
      let (u, payer, _, _, debit, credit) = transfer_inv c from to q memo s t h in
      let (m, _) = sub_balance-Moved from q (notifying from to s) u debit in
      let n = add_balance-Moved to payer q u t credit in
      n.balances p k
      ∙ ap (λ x. if p == to && k == q.symbol.code then x +ℤ q.amount else x) (m.balances p k)
  apply-posted c (Action.opens owner symbol payer) s t p k h =
      elim (Option-cases (lookup symbol.code (scope owner s))) [
        | inl e ↦
            let row : Account = record { balance = asset (pos 0) symbol; payer = payer } in
            ground (arith, balance-set_account owner symbol.code p k row s, e)
        | inr (row, e) ↦ ground (arith, e)
      ]
  apply-posted c (Action.closes owner symbol) s t p k h =
      elim (Option-cases (lookup symbol.code (scope owner s))) [
        | inl e ↦ ground arith
        | inr (row, e) ↦ ground (
          arith,
          e,
          lookup-insert owner p (erase symbol.code (scope owner s)) s.accounts,
          lookup-erase symbol.code k (scope owner s),
        )
      ]

  -- After any history of actions every balance is what the journal of the actions that succeeded
  -- makes of the balance before: an issue adds to the issuer's, a retire takes from it, a transfer
  -- moves, and opening and closing an account and creating a currency change none.
  pub run-journal :
      (history : List (Context × Action)) (s : TokenState) (p k : ℕ)
      → balance p k (run history s) ≡ posted (journal history s) p k (balance p k s)
  unfolding run journal
  run-journal [] s p k = refl
  run-journal ((c, a) ∷ rest) s p k = elim (Result-cases (apply c a s)) [
    | inl (t, e) ↦
        rw (e, run, journal)
          (run-journal rest t p k
            ∙ ap (posted (journal rest t) p k) (apply-posted c a s t p k e)
            ∙ sym (posted-++ (entry a s) (journal rest t) p k (balance p k s)))
    | inr (m, e) ↦ rw (e, run, journal) (run-journal rest s p k)
  ]
