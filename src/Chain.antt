-- ===== src/Chain.antt =====
-- What every contract takes from the chain and from its contract library: the context of an
-- action, and the type `asset` with the checked operations on it. The library's operations are
-- parameters with their documented behaviour.
pub mod Instance
use flon_contracts.Base.{
  ℕ, ◌^◌, ◌<◌, ◌≡◌, Bool, true, ◌&&◌, ◌==◌, ℤ, pos_part, neg_part, ◌+ℤ◌, ◌-ℤ◌, leb_ℤ, Result, ok,
  check, ◌>>=◌, ◌>>◌,
}

-- `eosio::symbol`
pub record Symbol : Type 0 where
  pub code : ℕ
  pub precision : ℕ

-- `eosio::asset`
pub record Asset : Type 0 where
  pub amount : ℤ
  pub symbol : Symbol

-- `==` on symbols
abbrev pub symbol_eq : Symbol → Symbol → Bool
symbol_eq a b = a.code == b.code && a.precision == b.precision

-- `asset{ amount, symbol }`
abbrev pub asset : ℤ → Symbol → Asset
asset x y = record { amount = x; symbol = y }

-- The magnitude of an amount that the library admits: below 2 ^ 62.
abbrev pub InRange : ℤ → Type 0
InRange x = (pos_part x < 2 ^ 62) × (neg_part x < 2 ^ 62)

-- `asset::is_valid`, `symbol::is_valid`, the constructor `asset( amount, symbol )`, which refuses an
-- amount out of range and an invalid symbol, and `+=` and `-=` on assets, which refuse two symbols
-- and a result that is out of range.
pub record AssetOps : Type 0 where
  pub is_valid : Asset → Bool
  pub symbol_is_valid : Symbol → Bool
  pub make : ℤ → Symbol → Result Asset
  pub add : Asset → Asset → Result Asset
  pub sub : Asset → Asset → Result Asset
  pub is_valid_range : (a : Asset) → is_valid a ≡ true → InRange a.amount
  pub make_sound : (x : ℤ) (y : Symbol) (a : Asset) → make x y ≡ ok a → (a ≡ asset x y) × InRange x
  pub make_total :
      (x : ℤ) (y : Symbol) → InRange x → symbol_is_valid y ≡ true → make x y ≡ ok (asset x y)
  pub add_sound :
      (a b c : Asset)
      → add a b ≡ ok c
      → (c.amount ≡ a.amount +ℤ b.amount) × (c.symbol ≡ a.symbol) × InRange c.amount
  pub sub_sound :
      (a b c : Asset)
      → sub a b ≡ ok c
      → (c.amount ≡ a.amount -ℤ b.amount) × (c.symbol ≡ a.symbol) × InRange c.amount
  pub add_total :
      (a b : Asset)
      → a.symbol ≡ b.symbol
      → InRange (a.amount +ℤ b.amount)
      → add a b ≡ ok (asset (a.amount +ℤ b.amount) a.symbol)
  pub sub_total :
      (a b : Asset)
      → a.symbol ≡ b.symbol
      → InRange (a.amount -ℤ b.amount)
      → sub a b ≡ ok (asset (a.amount -ℤ b.amount) a.symbol)

-- `==` and `>=` on assets; the second refuses two symbols.
abbrev pub asset_eq : Asset → Asset → Bool
asset_eq a b = leb_ℤ a.amount b.amount && leb_ℤ b.amount a.amount && symbol_eq a.symbol b.symbol

abbrev pub asset_ge : Asset → Asset → Result Bool
asset_ge a b = do
  check (symbol_eq a.symbol b.symbol) "comparison of assets with different symbols is not allowed"
  ok (leb_ℤ b.amount a.amount)

-- Who authorised the action, which accounts exist, the contract's own name, and the current time: in
-- microseconds (`time_point`), and converted to `time_point_sec` and to `block_timestamp`.
pub record Context : Type 0 where
  pub has_auth : ℕ → Bool
  pub is_account : ℕ → Bool
  pub self : ℕ
  pub now : ℕ
  pub now_sec : ℕ
  pub now_slot : ℕ
