-- ===== src/Token/Balances.antt =====
-- About `sub_balance` and `add_balance` of contracts/flon.token/src/flon.token.cpp: every balance, and
-- the sum of the balances.
use flon_contracts.Base.{
  ℕ, ◌≡◌, ◌≢◌, ◌⊎◌, refl, none, some, ℤ, pos, ◌+ℤ◌, ◌-ℤ◌, [], ◌≤ℤ◌, ◌==◌, ◌&&◌, if◌then◌else◌, ok,
  Dict, lookup, insert, lookup-insert, erase, lookup-erase, AllRows, AllRows-lookup_or,
  AllRows-insert, AllRows-map, le-sum_by, sum_by, sum_by-insert, int_laws, arith, Option-cases,
  Result-cases, inl, inr,
}
use flon_contracts.Chain.{Asset, AssetOps}
use flon_contracts.Token.{TokenState, Account, scope, set_account, sub_balance, add_balance}

abbrev pub amount_at : ℕ → Dict Account → ℤ
amount_at code rows = elim (lookup code rows) [ none ↦ pos 0 | some row ↦ row.balance.amount ]

-- The balance of an owner, zero where there is no row.
abbrev pub balance : ℕ → ℕ → TokenState → ℤ
balance owner code s = amount_at code (scope owner s)

-- The sum of all balances of a currency.
abbrev pub total : ℕ → TokenState → ℤ
total code s = sum_by (amount_at code) s.accounts

pub balance-set_account :
    (owner code p c : ℕ) (row : Account) (s : TokenState)
    → balance p c (set_account owner code row s)
      ≡ (if p == owner && c == code then row.balance.amount else balance p c s)
balance-set_account owner code p c row s = ground (
  arith,
  lookup-insert owner p (insert code row (scope owner s)) s.accounts,
  lookup-insert code c row (scope owner s),
)

pub total-set_account :
    (owner code c : ℕ) (row : Account) (s : TokenState)
    → total c (set_account owner code row s) +ℤ balance owner c s
      ≡ total c s +ℤ (if c == code then row.balance.amount else balance owner c s)
total-set_account owner code c row s = ground (
  arith,
  sum_by-insert (amount_at c) [] owner (insert code row (scope owner s)) s.accounts refl,
  lookup-insert code c row (scope owner s),
)

-- No balance is negative.
abbrev pub NonnegRows : Dict Account → Type 0
NonnegRows rows = (c : ℕ) → pos 0 ≤ℤ amount_at c rows

abbrev pub Nonneg : TokenState → Type 0
Nonneg s = AllRows NonnegRows s.accounts

pub balance_nonneg : (owner code : ℕ) (s : TokenState) → Nonneg s → pos 0 ≤ℤ balance owner code s
balance_nonneg owner code s h =
    AllRows-lookup_or NonnegRows [] owner s.accounts (λ c. omega arith) h code

pub balance-le-total :
    (owner code : ℕ) (s : TokenState) → Nonneg s → balance owner code s ≤ℤ total code s
balance-le-total owner code s h =
    le-sum_by (amount_at code) [] owner s.accounts refl
      (AllRows-map NonnegRows (λ rows. pos 0 ≤ℤ amount_at code rows) s.accounts (λ v f. f code) h)

pub set_account-Nonneg :
    (owner code : ℕ) (row : Account) (s : TokenState)
    → pos 0 ≤ℤ row.balance.amount
    → Nonneg s
    → Nonneg (set_account owner code row s)
set_account-Nonneg owner code row s p h =
    AllRows-insert NonnegRows owner (insert code row (scope owner s)) s.accounts written h
  where
    written : NonnegRows (insert code row (scope owner s))
    written c = ground (arith, lookup-insert code c row (scope owner s), balance_nonneg owner c s h)

-- A change of one balance of one currency by an amount.
pub record Moved (owner code : ℕ) (delta : ℤ) (s t : TokenState) : Type 0 where
  pub stats_same : t.stats ≡ s.stats
  pub notified_same : t.notified ≡ s.notified
  pub balances :
      (p c : ℕ)
      → balance p c t ≡ (if p == owner && c == code then balance p c s +ℤ delta else balance p c s)
  pub others_same : (p c : ℕ) → p ≢ owner ⊎ c ≢ code → lookup c (scope p t) ≡ lookup c (scope p s)
  pub nonneg_kept : pos 0 ≤ℤ balance owner code s +ℤ delta → Nonneg s → Nonneg t
  pub totals : (c : ℕ) → total c t ≡ (if c == code then total c s +ℤ delta else total c s)

pub set_account-Moved :
    (owner code : ℕ) (delta : ℤ) (row : Account) (s : TokenState)
    → row.balance.amount ≡ balance owner code s +ℤ delta
    → Moved owner code delta s (set_account owner code row s)
set_account-Moved owner code delta row s e = record {
  stats_same = refl;
  notified_same = refl;
  balances = λ p c. ground (arith, balance-set_account owner code p c row s);
  others_same = λ p c other. ground (
    arith,
    lookup-insert owner p (insert code row (scope owner s)) s.accounts,
    lookup-insert code c row (scope owner s),
    other,
  );
  nonneg_kept = λ p. set_account-Nonneg owner code row s (rw e p);
  totals = λ c. total_moves c;
}
  where
    total_moves :
        (c : ℕ)
        → total c (set_account owner code row s)
          ≡ (if c == code then total c s +ℤ delta else total c s)
    total_moves c = grind (int_laws, total-set_account owner code c row s)

cancel_right : (a b x : ℤ) → a +ℤ x ≡ b +ℤ x → a ≡ b
cancel_right a b x e = grind (int_laws, e)

-- Erasing a row whose balance is zero changes no sum.
pub erase_row-total :
    (owner code c : ℕ) (s : TokenState)
    → balance owner code s ≡ pos 0
    → total c (record s { accounts = insert owner (erase code (scope owner s)) s.accounts })
      ≡ total c s
erase_row-total owner code c s zero = cancel_right _ _ (balance owner c s) (
    ground (
      arith,
      sum_by-insert (amount_at c) [] owner (erase code (scope owner s)) s.accounts refl,
      lookup-erase code c (scope owner s),
    ))

pub erase_row-Nonneg :
    (owner code : ℕ) (s : TokenState)
    → Nonneg s
    → Nonneg (record s { accounts = insert owner (erase code (scope owner s)) s.accounts })
erase_row-Nonneg owner code s h =
    AllRows-insert NonnegRows owner (erase code (scope owner s)) s.accounts left h
  where
    left : NonnegRows (erase code (scope owner s))
    left c = ground (arith, lookup-erase code c (scope owner s), balance_nonneg owner c s h)

module _ ⦃ops : AssetOps⦄ where
  -- What a debit that goes through has found and written.
  sub_balance_inv :
      (owner : ℕ) (value : Asset) (s t : TokenState)
      → sub_balance owner value s ≡ ok t
      → (row : Account) × (b : Asset) × (lookup value.symbol.code (scope owner s) ≡ some row)
        × (value.amount ≤ℤ row.balance.amount)
        × (ops.sub row.balance value ≡ ok b)
        × (t ≡ set_account owner value.symbol.code (record { balance = b; payer = owner }) s)
  unfolding sub_balance
  sub_balance_inv owner value s t h =
      elim (Option-cases (lookup value.symbol.code (scope owner s))) [
        | inl e ↦ ground arith
        | inr (row, e) ↦ elim (Result-cases (ops.sub row.balance value)) [
          | inl (b, eb) ↦ (row, b, e, ground arith, eb, ground arith)
          | inr (m, em) ↦ ground arith
        ]
      ]

  -- A debit that goes through is covered, and moves the one balance down.
  pub sub_balance-Moved :
      (owner : ℕ) (value : Asset) (s t : TokenState)
      → sub_balance owner value s ≡ ok t
      → Moved owner value.symbol.code (pos 0 -ℤ value.amount) s t
        × (value.amount ≤ℤ balance owner value.symbol.code s)
  sub_balance-Moved owner value s t h =
      let (row, b, e, covered, eb, et) = sub_balance_inv owner value s t h in
      let amounts = ops.sub_sound row.balance value b eb in
      let here : balance owner value.symbol.code s ≡ row.balance.amount = ground (arith, e) in
      (
        rw et (
            set_account-Moved owner value.symbol.code (pos 0 -ℤ value.amount) _ s
              (grind (int_laws, amounts.0, here))),
        ground (arith, here, covered),
      )

  -- A credit that goes through moves the one balance up.
  pub add_balance-Moved :
      (owner payer : ℕ) (value : Asset) (s t : TokenState)
      → add_balance owner value payer s ≡ ok t
      → Moved owner value.symbol.code value.amount s t
  unfolding add_balance
  add_balance-Moved owner payer value s t h =
      elim (Option-cases (lookup value.symbol.code (scope owner s))) [
        | inl e ↦ new_row e (ground arith)
        | inr (row, e) ↦ elim (Result-cases (ops.add row.balance value)) [
          | inl (b, eb) ↦ old_row row b e eb (ground arith)
          | inr (m, em) ↦ ground arith
        ]
      ]
    where
      code : ℕ
      code = value.symbol.code

      new_row :
          lookup code (scope owner s) ≡ none
          → t ≡ set_account owner code (record { balance = value; payer = payer }) s
          → Moved owner code value.amount s t
      new_row e et =
          let here : balance owner code s ≡ pos 0 = ground (arith, e) in
          rw et (set_account-Moved owner code value.amount _ s (grind (int_laws, here)))

      old_row :
          (row : Account) (b : Asset)
          → lookup code (scope owner s) ≡ some row
          → ops.add row.balance value ≡ ok b
          → t ≡ set_account owner code (record row { balance = b }) s
          → Moved owner code value.amount s t
      old_row row b e eb et =
          let here : balance owner code s ≡ row.balance.amount = ground (arith, e) in
          let amounts = ops.add_sound row.balance value b eb in
          rw et (set_account-Moved owner code value.amount _ s (grind (int_laws, amounts.0, here)))
