-- ===== src/System/Parameters/Init.antt =====
-- contracts/flon.system/src/flon.system.cpp: `init`, with the token contract that it reads and the two
-- contracts that it calls.
use flon_contracts.Base.{
  ℕ, ◌≡◌, ◌≢◌, Bool, true, false, not, [], ◌∷◌, ◌++◌, none, some, pos, ltb_ℤ, ◌==◌, Result, ok,
  ◌>>=◌, ◌>>◌, check, lookup,
}
use flon_contracts.Chain.{Symbol, symbol_eq, AssetOps, Context}
use flon_contracts.Token.{TokenState, Account, scope, get_supply, open_account}
use flon_contracts.Reward.Defs.{RewardState, system_contract}
use flon_contracts.Reward.Defs
use flon_contracts.System.Accounts.{gas_account}
use flon_contracts.System.Parameters.{GlobalState, ParameterState, Inline, loaded, stored}

-- "flon.token"_n
abbrev pub token_account : ℕ
token_account = 6658906741110259712

abbrev pub denominated : Symbol → GlobalState → GlobalState
denominated core g = record g {
  total_vote_stake = record g.total_vote_stake { symbol = core };
  initial_rewards_per_block = record g.initial_rewards_per_block { symbol = core };
  total_produced_rewards = record g.total_produced_rewards { symbol = core };
  total_unclaimed_rewards = record g.total_unclaimed_rewards { symbol = core };
}

module _ ⦃ops : AssetOps⦄ where
  -- `system_contract::is_init( self )`
  unfoldable pub is_init : ParameterState → Bool
  is_init s = elim s.global [
    | none ↦ false
    | some g ↦ ops.symbol_is_valid g.total_vote_stake.symbol
  ]

  -- `tokens` are the tables of the token contract.
  unfoldable pub init :
      GlobalState → TokenState → Context → ℕ → Symbol → ParameterState → Result ParameterState
  init defaults tokens c version core s = do
    check (c.has_auth c.self) "missing authority"
    check (version == 0) "unsupported version for init action"
    check (not (ops.symbol_is_valid (loaded defaults s).total_vote_stake.symbol))
        "system contract has already been initialized"
    system_token_supply ← get_supply core.code tokens
    check (symbol_eq system_token_supply.symbol core)
        "specified core symbol does not exist (precision mismatch)"
    check (ltb_ℤ (pos 0) system_token_supply.amount) "system token supply must be greater than 0"
    check (c.is_account token_account) "gas account does not exist"
    ok (
        stored (denominated core (loaded defaults s)) (record s {
          sent = s.sent ++ Inline.opens gas_account core c.self ∷ Inline.inits_reward core ∷ [];
        }))

  -- What a successful `init` leaves.
  pub record Initialized (defaults : GlobalState) (tokens : TokenState) (c : Context)
      (core : Symbol) (s t : ParameterState) : Type 0 where
    pub denominates : t.global ≡ some (denominated core (loaded defaults s))
    pub sends :
        t.sent ≡ s.sent ++ Inline.opens gas_account core c.self ∷ Inline.inits_reward core ∷ []
    pub initialized : ops.symbol_is_valid core ≡ true → is_init t ≡ true
    pub once :
        ops.symbol_is_valid core ≡ true
        → (defaults' : GlobalState) (tokens' : TokenState) (d : Context) (version : ℕ)
          (core' : Symbol) (u : ParameterState)
        → init defaults' tokens' d version core' t ≢ ok u
    pub opens :
        (d : Context)
        → d.has_auth c.self ≡ true
        → d.is_account gas_account ≡ true
        → (opened : TokenState) × (row : Account) × (open_account d gas_account core c.self tokens
            ≡ ok opened)
          × (lookup core.code (scope gas_account opened) ≡ some row)
    pub inits_reward :
        (d : Context) (r : RewardState)
        → d.has_auth system_contract ≡ true
        → ops.symbol_is_valid (Defs.core_symbol r) ≡ false
        → (shared : RewardState) × (Defs.init d core r ≡ ok shared)
          × (Defs.core_symbol shared ≡ core)
