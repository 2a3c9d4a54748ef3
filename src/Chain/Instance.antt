-- ===== src/Chain/Instance.antt =====
-- The documented behaviour of the library's assets can be met: checked arithmetic on amounts below
-- 2 ^ 62, and codes and precisions in their ranges.
use flon_contracts.Base.{
  ◌^◌, ◌≡◌, Bool, true, ◌&&◌, ltb, leb, ℤ, pos_part, neg_part, ◌+ℤ◌, ◌-ℤ◌, Result, ok, err,
  if◌then◌else◌, arith,
}
use flon_contracts.Chain.{Symbol, symbol_eq, Asset, asset, InRange, AssetOps}

abbrev pub in_range : ℤ → Bool
in_range x = ltb (pos_part x) (2 ^ 62) && ltb (neg_part x) (2 ^ 62)

abbrev pub checked : ℤ → Symbol → Symbol → Result Asset
checked x a b = if symbol_eq a b && in_range x then ok (asset x a) else err "asset arithmetic"

unfoldable pub valid_symbol : Symbol → Bool
valid_symbol s = leb s.precision 18 && ltb 0 s.code && ltb s.code (2 ^ 56)

unfoldable pub valid_asset : Asset → Bool
unfolding valid_symbol
valid_asset a = in_range a.amount && valid_symbol a.symbol

pub valid_asset_range : (a : Asset) → valid_asset a ≡ true → InRange a.amount
unfolding valid_asset
valid_asset_range a h = ground arith

pub checked_sound :
    (x : ℤ) (a b : Symbol) (c : Asset)
    → checked x a b ≡ ok c
    → (c.amount ≡ x) × (c.symbol ≡ a) × InRange c.amount
checked_sound x a b c h = ground arith

pub checked_total : (x : ℤ) (a b : Symbol) → a ≡ b → InRange x → checked x a b ≡ ok (asset x a)
checked_total x a b e r = ground arith

unfoldable pub made : ℤ → Symbol → Result Asset
unfolding valid_symbol
made x y = if in_range x && valid_symbol y then ok (asset x y) else err "magnitude of asset amount"

pub made_sound : (x : ℤ) (y : Symbol) (a : Asset) → made x y ≡ ok a → (a ≡ asset x y) × InRange x
unfolding made
made_sound x y a h = ground arith

pub made_total :
    (x : ℤ) (y : Symbol) → InRange x → valid_symbol y ≡ true → made x y ≡ ok (asset x y)
unfolding made
made_total x y r v = ground arith

instance unfoldable pub checked_assets : AssetOps
unfolding valid_asset valid_symbol made
checked_assets = record {
  is_valid = valid_asset;
  symbol_is_valid = valid_symbol;
  make = made;
  add = λ a b. checked (a.amount +ℤ b.amount) a.symbol b.symbol;
  sub = λ a b. checked (a.amount -ℤ b.amount) a.symbol b.symbol;
  is_valid_range = valid_asset_range;
  make_sound = made_sound;
  make_total = made_total;
  add_sound = λ a b. checked_sound (a.amount +ℤ b.amount) a.symbol b.symbol;
  sub_sound = λ a b. checked_sound (a.amount -ℤ b.amount) a.symbol b.symbol;
  add_total = λ a b. checked_total (a.amount +ℤ b.amount) a.symbol b.symbol;
  sub_total = λ a b. checked_total (a.amount -ℤ b.amount) a.symbol b.symbol;
}
