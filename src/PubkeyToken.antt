-- ===== src/PubkeyToken.antt =====
-- contracts/pubkey.token/src/pubkey.token.cpp: tokens that are kept for public keys until a miner
-- moves them to an account.
pub mod Base58
pub mod Locked
mod Tests
use flon_contracts.Base.{
  ℕ, ◌+◌, ◌%◌, ◌^◌, Bool, true, false, not, ◌&&◌, ◌||◌, List, [], ◌∷◌, ◌++◌, Option, none, some,
  ◌==◌, ℤ, pos, leb_ℤ, ltb_ℤ, if◌then◌else◌, Result, ok, ◌>>=◌, ◌>>◌, check, or_fail, Dict, insert,
  erase,
}
use flon_contracts.Chain.{Symbol, symbol_eq, Asset, asset, asset_ge, AssetOps, Context}
use flon_contracts.PubkeyToken.Base58.{str_to_pubkey}

-- symbol( symbol_code( "FLON" ), 4 ), and "flon.token"_n.
abbrev pub flon_symbol : Symbol
flon_symbol = record { code = 1313819718; precision = 4 }

abbrev pub flon_bank : ℕ
flon_bank = 6658906741110259712

-- Keys, signatures and texts are lists of bytes. `key_bytes` is the memory of a `public_key` object
-- that is hashed, `recovers` is what `assert_recover_key` asserts, and `name_text` and `number_text`
-- are `name::to_string` and `std::to_string`.
pub record KeyHost : Type 0 where
  pub sha256 : List ℕ → ℕ
  pub key_bytes : List ℕ → List ℕ
  pub recovers : ℕ → List ℕ → List ℕ → Bool
  pub name_text : ℕ → List ℕ
  pub number_text : ℕ → List ℕ

pub record PubkeyAccount : Type 0 where
  pub id : ℕ
  pub pubkey : List ℕ
  pub quantity : Asset
  pub last_recv_at : ℕ

-- The transfers of `flon.token` from the contract, and the creation of an account.
pub data Inline : Type 0 where
  token_transfer : ℕ → Asset → Inline
  system_newaccount : ℕ → ℕ → List ℕ → Inline

pub record PubkeyState : Type 0 where
  pub admin : ℕ
  pub last_idx : ℕ
  pub miner_fee : Asset
  pub accounts : Dict PubkeyAccount
  pub sent : List Inline

-- The global state before the first action.
abbrev pub initial : ℕ → PubkeyState
initial self = record {
  admin = self;
  last_idx = 0;
  miner_fee = asset (pos 1000) flon_symbol;
  accounts = [];
  sent = [];
}

abbrev pub send : Inline → PubkeyState → PubkeyState
send a s = record s { sent = s.sent ++ a ∷ [] }

module _ (host : KeyHost) where
  abbrev pub by_pubkey : List ℕ → ℕ
  by_pubkey key = host.sha256 (host.key_bytes key)

  abbrev pub hash_account : ℕ → ℕ
  hash_account account = host.sha256 (host.name_text account)

  abbrev pub hash_timepoint : ℕ → ℕ
  hash_timepoint time = host.sha256 (host.number_text time)

  -- `find` on the index `by.pubkey`: the primary key with the row.
  unfoldable pub find_account : ℕ → Dict PubkeyAccount → Option (ℕ × PubkeyAccount)
  find_account hash [] = none
  find_account hash ((i, row) ∷ rows) =
      let rest = find_account hash rows in
      if by_pubkey row.pubkey == hash then some (i, row) else rest

module _ (host : KeyHost) ⦃ops : AssetOps⦄ where
  unfoldable pub on_pubkey_recv_token : Context → List ℕ → Asset → PubkeyState → Result PubkeyState
  on_pubkey_recv_token c pubkey quantity s =
      elim (find_account host (by_pubkey host pubkey) s.accounts) as (λ _. Result PubkeyState) [
        | none ↦
            let id = (s.last_idx + 1) % 2 ^ 64 in
            ok (record s {
              last_idx = id;
              accounts =
                  insert id
                    (record { id = id; pubkey = pubkey; quantity = quantity; last_recv_at = c.now })
                    s.accounts;
            })
        | some (i, row) ↦ do
          total ← ops.add row.quantity quantity
          ok (record s {
            accounts = insert i (record row { quantity = total; last_recv_at = c.now }) s.accounts;
          })
      ]

  -- `first_receiver` is the contract whose transfer is notified.
  unfoldable pub ontransfer :
      Context → ℕ → ℕ → ℕ → Asset → List ℕ → PubkeyState → Result PubkeyState
  ontransfer c first_receiver sender receiver quantity memo s =
      elim (not (receiver == c.self) || sender == c.self) as (λ _. Result PubkeyState) [
        | true ↦ ok s
        | false ↦ do
          check (first_receiver == flon_bank) "Only `flon.token` is supported"
          check (not (symbol_eq quantity.symbol flon_symbol)) "Only FLON tokens are supported"
          pubkey ← str_to_pubkey memo
          on_pubkey_recv_token c pubkey quantity s
      ]

  -- What `newaccount` and `move` send when the fee is covered: the fee to the miner, and to the
  -- account what is left, if anything is.
  unfoldable pub pay_out : ℕ → ℕ → PubkeyAccount → PubkeyState → Result PubkeyState
  pay_out miner account row s = do
    let paid = send (Inline.token_transfer miner s.miner_fee) s
    covered ← asset_ge s.miner_fee row.quantity
    elim covered as (λ _. Result PubkeyState) [
      | true ↦ ok paid
      | false ↦ do
        rest ← ops.sub row.quantity s.miner_fee
        ok (send (Inline.token_transfer account rest) paid)
    ]

  unfoldable pub newaccount : Context → ℕ → List ℕ → ℕ → List ℕ → PubkeyState → Result PubkeyState
  newaccount c miner pubkey account sig s = do
    check (c.has_auth miner) "missing authority"
    check (not (c.is_account account)) "Account already exists"
    r ← or_fail (find_account host (by_pubkey host pubkey) s.accounts) "pubkey not found"
    enough ← asset_ge r.1.quantity s.miner_fee
    check enough "insufficient proxy miner fees to pay"
    check (host.recovers (hash_account host account) sig pubkey)
        "Error expected key different than recovered key"
    paid ← pay_out miner account r.1 (send (Inline.system_newaccount c.self account pubkey) s)
    ok (record paid { accounts = erase r.0 s.accounts })

  -- `no_key` and `no_signature` are the values of the default constructors.
  unfoldable pub move :
      (List ℕ → Bool)
      → (List ℕ → Bool)
      → Context
      → ℕ
      → List ℕ
      → ℕ
      → ℕ
      → List ℕ
      → PubkeyState
      → Result PubkeyState
  move no_key no_signature c miner pubkey last_recv_at account sig s = do
    check (c.is_account account) "Account does not exist"
    check (not (no_key pubkey)) "Invalid public key"
    check (not (no_signature sig)) "Invalid signature"
    r ← or_fail (find_account host (by_pubkey host pubkey) s.accounts) "pubkey not found"
    enough ← asset_ge r.1.quantity s.miner_fee
    check enough "insufficient proxy miner fees to pay"
    check (host.recovers (hash_timepoint host last_recv_at) sig pubkey)
        "Error expected key different than recovered key"
    check (r.1.last_recv_at == last_recv_at) "Invalid last transfer time"
    paid ← pay_out miner account r.1 s
    ok (record paid { accounts = erase r.0 s.accounts })

unfoldable pub set_admin : Context → ℕ → PubkeyState → Result PubkeyState
set_admin c admin s = do
  check (c.has_auth c.self || c.has_auth s.admin) "no auth for operate"
  ok (record s { admin = admin })
