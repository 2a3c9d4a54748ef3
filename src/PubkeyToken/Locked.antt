-- ===== src/PubkeyToken/Locked.antt =====
-- About contracts/pubkey.token/src/pubkey.token.cpp: what becomes of the tokens that it receives.
use flon_contracts.Base.{
  ℕ, ◌≡◌, ◌≢◌, refl, subst, Bool, false, not, ◌||◌, List, [], ◌∷◌, some, ◌==◌, Result, ok, err,
  Dict, insert, ◌+◌, ◌%◌, ◌^◌, AllRows, AllRows-insert, arith, Bool-cases, Option-cases,
  Result-cases, inl, inr,
}
use flon_contracts.Chain.{symbol_eq, Asset, asset_ge, AssetOps, Context}
use flon_contracts.PubkeyToken.Base58.{str_to_pubkey}
use flon_contracts.PubkeyToken.{
  KeyHost, PubkeyAccount, PubkeyState, initial, flon_symbol, by_pubkey, find_account,
  on_pubkey_recv_token, ontransfer, newaccount, move, set_admin,
}

abbrev pub Foreign : PubkeyAccount → Type 0
Foreign row = symbol_eq row.quantity.symbol flon_symbol ≡ false

pub record Locked (s : PubkeyState) : Type 0 where
  pub fee : s.miner_fee.symbol ≡ flon_symbol
  pub rows : AllRows Foreign s.accounts
  pub unsent : s.sent ≡ []

module _ (host : KeyHost) where
  find_account-Foreign :
      (hash : ℕ) (d : Dict PubkeyAccount) (i : ℕ) (row : PubkeyAccount)
      → AllRows Foreign d
      → find_account host hash d ≡ some (i, row)
      → Foreign row
  unfolding find_account
  find_account-Foreign hash [] i row h e = ground arith
  find_account-Foreign hash ((j, r) ∷ d) i row h e =
      elim (Bool-cases (by_pubkey host r.pubkey == hash)) [
        | inl hit ↦ let same : r ≡ row = ground (arith, hit) in subst Foreign same h.0
        | inr miss ↦ find_account-Foreign hash d i row h.1 (ground (arith, miss))
      ]

-- The comparison with the fee fails.
asset_ge-Foreign :
    (row : PubkeyAccount) (fee : Asset) (b : Bool)
    → Foreign row
    → fee.symbol ≡ flon_symbol
    → asset_ge row.quantity fee ≢ ok b
asset_ge-Foreign row fee b h e f =
    let differs : symbol_eq row.quantity.symbol fee.symbol ≡ false = rw e h in
    ground (arith, differs)

module _ (host : KeyHost) ⦃ops : AssetOps⦄ where
  on_pubkey_recv_token-Locked :
      (c : Context) (key : List ℕ) (q : Asset) (s t : PubkeyState)
      → symbol_eq q.symbol flon_symbol ≡ false
      → Locked s
      → on_pubkey_recv_token host c key q s ≡ ok t
      → Locked t
  unfolding on_pubkey_recv_token
  on_pubkey_recv_token-Locked c key q s t foreign l h =
      elim (Option-cases (find_account host (by_pubkey host key) s.accounts)) [
        | inl e ↦
            let id = (s.last_idx + 1) % 2 ^ 64 in
            let row : PubkeyAccount = record {
              id = id;
              pubkey = key;
              quantity = q;
              last_recv_at = c.now;
            } in
            let new : record s { last_idx = id; accounts = insert id row s.accounts } ≡ t =
              ground arith in
            subst Locked new record {
              fee = l.fee;
              rows = AllRows-insert Foreign id row s.accounts foreign l.rows;
              unsent = l.unsent;
            }
        | inr ((i, row), e) ↦ elim (Result-cases (ops.add row.quantity q)) [
          | inr (m, f) ↦ ground arith
          | inl (total, f) ↦
              let same = (ops.add_sound row.quantity q total f).1 in
              let old = find_account-Foreign host (by_pubkey host key) s.accounts i row l.rows e in
              let new : symbol_eq total.symbol flon_symbol ≡ false = rw same old in
              let row' = record row { quantity = total; last_recv_at = c.now } in
              let done : record s { accounts = insert i row' s.accounts } ≡ t = ground arith in
              subst Locked done record {
                fee = l.fee;
                rows = AllRows-insert Foreign i row' s.accounts new l.rows;
                unsent = l.unsent;
              }
        ]
      ]

  ontransfer-Locked :
      (c : Context) (first sender receiver : ℕ) (q : Asset) (memo : List ℕ) (s t : PubkeyState)
      → Locked s
      → ontransfer host c first sender receiver q memo s ≡ ok t
      → Locked t
  unfolding ontransfer
  ontransfer-Locked c first sender receiver q memo s t l h =
      elim (Bool-cases (not (receiver == c.self) || sender == c.self)) [
        | inl e ↦ subst Locked (ground arith) l
        | inr e ↦ elim (Result-cases (str_to_pubkey memo)) [
          | inr (m, f) ↦ ground arith
          | inl (key, f) ↦ on_pubkey_recv_token-Locked c key q s t (ground arith) l (ground arith)
        ]
      ]

  newaccount-Locked :
      (c : Context) (miner account : ℕ) (key sig : List ℕ) (s t : PubkeyState)
      → Locked s
      → newaccount host c miner key account sig s ≢ ok t
  unfolding newaccount
  newaccount-Locked c miner account key sig s t l h =
      elim (Option-cases (find_account host (by_pubkey host key) s.accounts)) [
        | inl e ↦ ground arith
        | inr ((i, row), e) ↦ elim (Result-cases (asset_ge row.quantity s.miner_fee)) [
          | inr (m, f) ↦ ground arith
          | inl (b, f) ↦
              asset_ge-Foreign row s.miner_fee b
                (find_account-Foreign host (by_pubkey host key) s.accounts i row l.rows e) l.fee f
        ]
      ]

  move-Locked :
      (no_key no_signature : List ℕ → Bool) (c : Context) (miner time account : ℕ)
      (key sig : List ℕ) (s t : PubkeyState)
      → Locked s
      → move host no_key no_signature c miner key time account sig s ≢ ok t
  unfolding move
  move-Locked no_key no_signature c miner time account key sig s t l h =
      elim (Option-cases (find_account host (by_pubkey host key) s.accounts)) [
        | inl e ↦ ground arith
        | inr ((i, row), e) ↦ elim (Result-cases (asset_ge row.quantity s.miner_fee)) [
          | inr (m, f) ↦ ground arith
          | inl (b, f) ↦
              asset_ge-Foreign row s.miner_fee b
                (find_account-Foreign host (by_pubkey host key) s.accounts i row l.rows e) l.fee f
        ]
      ]

-- A notified transfer or an action, with its context.
pub data Action : Type 0 where
  receives : Context → ℕ → ℕ → ℕ → Asset → List ℕ → Action
  creates : Context → ℕ → List ℕ → ℕ → List ℕ → Action
  moves : Context → ℕ → List ℕ → ℕ → ℕ → List ℕ → Action
  appoints : Context → ℕ → Action

module _ (host : KeyHost) (no_key no_signature : List ℕ → Bool) ⦃ops : AssetOps⦄ where
  unfoldable pub apply : Action → PubkeyState → Result PubkeyState
  apply (Action.receives c first sender receiver q memo) s =
      ontransfer host c first sender receiver q memo s
  apply (Action.creates c miner key account sig) s = newaccount host c miner key account sig s
  apply (Action.moves c miner key time account sig) s =
      move host no_key no_signature c miner key time account sig s
  apply (Action.appoints c admin) s = set_admin c admin s

  -- An action that fails changes nothing.
  unfoldable pub run : List Action → PubkeyState → PubkeyState
  run [] s = s
  run (a ∷ rest) s = elim (apply a s) as (λ _. PubkeyState) [
    | ok t ↦ run rest t
    | err m ↦ run rest s
  ]

  apply-Locked : (a : Action) (s t : PubkeyState) → Locked s → apply a s ≡ ok t → Locked t
  unfolding apply set_admin
  apply-Locked (Action.receives c first sender receiver q memo) s t l h =
      ontransfer-Locked host c first sender receiver q memo s t l h
  apply-Locked (Action.creates c miner key account sig) s t l h =
      absurd (newaccount-Locked host c miner account key sig s t l h)
  apply-Locked (Action.moves c miner key time account sig) s t l h =
      absurd (move-Locked host no_key no_signature c miner time account key sig s t l h)
  apply-Locked (Action.appoints c admin) s t l h =
      let done : record s { admin = admin } ≡ t = ground arith in
      subst Locked done record { fee = l.fee; rows = l.rows; unsent = l.unsent }

  run-Locked : (actions : List Action) (s : PubkeyState) → Locked s → Locked (run actions s)
  unfolding run
  run-Locked [] s l = l
  run-Locked (a ∷ rest) s l = elim (Result-cases (apply a s)) [
    | inl (t, e) ↦ rw (e, run) (run-Locked rest t (apply-Locked a s t l e))
    | inr (m, e) ↦ rw (e, run) (run-Locked rest s l)
  ]

  -- From its first state on, whatever actions are made and transfers are notified, the contract never
  -- sends anything: no fee, no token that it has received, and no new account.
  pub run-initial : (actions : List Action) (self : ℕ) → (run actions (initial self)).sent ≡ []
  run-initial actions self =
      (run-Locked actions (initial self) record { fee = refl; rows = tt; unsent = refl }).unsent
