-- ===== src/System/Parameters.antt =====
-- contracts/flon.system/src/flon.system.cpp: the parameters of the chain, privileges, protocol features,
-- idle blocks and the hashes of ABIs, as the contract is built with SYSTEM_BLOCKCHAIN_PARAMETERS.
pub mod Packing
pub mod Wasm
pub mod Init
mod Tests
use flon_contracts.Base.{
  ℕ, ◌+◌, Bool, not, List, [], ◌∷◌, ◌++◌, Option, none, some, String, leb, ◌==◌, ◌≡◌, Result, ok,
  ◌>>=◌, ◌>>◌, check, Dict, lookup, insert,
}
use flon_contracts.Chain.{Symbol, Asset, Context}
use flon_contracts.System.Finalizers.{Bytes}

-- `chain_config_params_v0` and `chain_config_params_v1`
pub data Param : Type 0 where
  max_block_net_usage_id target_block_net_usage_pct_id max_transaction_net_usage_id : Param
  base_per_transaction_net_usage_id net_usage_leeway_id context_free_discount_net_usage_num_id :
      Param
  context_free_discount_net_usage_den_id max_block_cpu_usage_id target_block_cpu_usage_pct_id :
      Param
  max_transaction_cpu_usage_id min_transaction_cpu_usage_id max_transaction_lifetime_id : Param
  deferred_trx_expiration_window_id max_transaction_delay_id max_inline_action_size_id : Param
  max_inline_action_depth_id max_authority_depth_id max_total_ram_usage_id gas_per_cpu_ms_id : Param
  gas_per_net_kb_id gas_per_ram_kb_id max_action_return_value_size_id : Param

-- `uint8_t( … )` of an enumerator
unfoldable pub id_of : Param → ℕ
id_of max_block_net_usage_id = 0
id_of target_block_net_usage_pct_id = 1
id_of max_transaction_net_usage_id = 2
id_of base_per_transaction_net_usage_id = 3
id_of net_usage_leeway_id = 4
id_of context_free_discount_net_usage_num_id = 5
id_of context_free_discount_net_usage_den_id = 6
id_of max_block_cpu_usage_id = 7
id_of target_block_cpu_usage_pct_id = 8
id_of max_transaction_cpu_usage_id = 9
id_of min_transaction_cpu_usage_id = 10
id_of max_transaction_lifetime_id = 11
id_of deferred_trx_expiration_window_id = 12
id_of max_transaction_delay_id = 13
id_of max_inline_action_size_id = 14
id_of max_inline_action_depth_id = 15
id_of max_authority_depth_id = 16
id_of max_total_ram_usage_id = 17
id_of gas_per_cpu_ms_id = 18
id_of gas_per_net_kb_id = 19
id_of gas_per_ram_kb_id = 20
id_of max_action_return_value_size_id = 21

abbrev pub params_v0_count : ℕ
params_v0_count = 21

-- `eosio::blockchain_parameters`
pub record ChainParameters : Type 0 where
  pub max_block_net_usage : ℕ
  pub target_block_net_usage_pct : ℕ
  pub max_transaction_net_usage : ℕ
  pub base_per_transaction_net_usage : ℕ
  pub net_usage_leeway : ℕ
  pub context_free_discount_net_usage_num : ℕ
  pub context_free_discount_net_usage_den : ℕ
  pub max_block_cpu_usage : ℕ
  pub target_block_cpu_usage_pct : ℕ
  pub max_transaction_cpu_usage : ℕ
  pub min_transaction_cpu_usage : ℕ
  pub max_transaction_lifetime : ℕ
  pub deferred_trx_expiration_window : ℕ
  pub max_transaction_delay : ℕ
  pub max_inline_action_size : ℕ
  pub max_inline_action_depth : ℕ
  pub max_authority_depth : ℕ
  pub max_total_ram_usage : ℕ
  pub gas_per_cpu_ms : ℕ
  pub gas_per_net_kb : ℕ
  pub gas_per_ram_kb : ℕ

-- `blockchain_parameters_v1`
pub record BlockchainParameters : Type 0 where
  pub base : ChainParameters
  pub max_action_return_value_size : Option ℕ

-- The members of `eosio_global_state` that the actions of this file use.
pub record GlobalState : Type 0 where
  pub parameters : ChainParameters
  pub total_vote_stake : Asset
  pub initial_rewards_per_block : Asset
  pub total_produced_rewards : Asset
  pub total_unclaimed_rewards : Asset

-- `abi_hash`
pub record AbiHash : Type 0 where
  pub owner : ℕ
  pub hash : ℕ

pub data HostCall : Type 0 where
  set_parameters_packed set_wasm_parameters_packed : Bytes → HostCall
  set_privileged : ℕ → ℕ → HostCall
  preactivate_feature : ℕ → HostCall

-- The inline actions that `init` sends: to the token contract with the owner, the symbol and the
-- payer, and to the reward contract.
pub data Inline : Type 0 where
  opens : ℕ → Symbol → ℕ → Inline
  inits_reward : Symbol → Inline

-- `global` is missing before the first action; `prodconf` has the interval of idle blocks.
pub record ParameterState : Type 0 where
  pub global : Option GlobalState
  pub prodconf : Option ℕ
  pub abi_hashes : Dict AbiHash
  pub calls : List HostCall
  pub sent : List Inline

-- The constructor of the contract: `defaults` is a new global state with the parameters that the
-- host returns.
unfoldable pub loaded : GlobalState → ParameterState → GlobalState
loaded defaults s = elim s.global as (λ _. GlobalState) [ none ↦ defaults | some g ↦ g ]

-- The destructor of the contract.
abbrev pub stored : GlobalState → ParameterState → ParameterState
stored g s = record s { global = some g }

abbrev pub calls_host : HostCall → ParameterState → ParameterState
calls_host call s = record s { calls = s.calls ++ call ∷ [] }

-- How the contract library writes and reads the value of a parameter: `Fits i v` says that the value
-- is in the range of the type of parameter `i`.
pub record Codec : Type 1 where
  pub write : Param → ℕ → Bytes
  pub read : ℕ → Bytes → Option (ℕ × Bytes)
  pub Fits : Param → ℕ → Type 0
  pub read-write :
      (i : Param) (v : ℕ) (rest : Bytes)
      → Fits i v
      → read (id_of i) (write i v ++ rest) ≡ some (v, rest)

-- What `stream <<` writes, in order.
unfoldable pub fields : ChainParameters → List (Param × ℕ)
fields p =
    (max_block_net_usage_id, p.max_block_net_usage)
    ∷ (target_block_net_usage_pct_id, p.target_block_net_usage_pct)
    ∷ (max_transaction_net_usage_id, p.max_transaction_net_usage)
    ∷ (base_per_transaction_net_usage_id, p.base_per_transaction_net_usage)
    ∷ (net_usage_leeway_id, p.net_usage_leeway)
    ∷ (context_free_discount_net_usage_num_id, p.context_free_discount_net_usage_num)
    ∷ (context_free_discount_net_usage_den_id, p.context_free_discount_net_usage_den)
    ∷ (max_block_cpu_usage_id, p.max_block_cpu_usage)
    ∷ (target_block_cpu_usage_pct_id, p.target_block_cpu_usage_pct)
    ∷ (max_transaction_cpu_usage_id, p.max_transaction_cpu_usage)
    ∷ (min_transaction_cpu_usage_id, p.min_transaction_cpu_usage)
    ∷ (max_transaction_lifetime_id, p.max_transaction_lifetime)
    ∷ (deferred_trx_expiration_window_id, p.deferred_trx_expiration_window)
    ∷ (max_transaction_delay_id, p.max_transaction_delay)
    ∷ (max_inline_action_size_id, p.max_inline_action_size)
    ∷ (max_inline_action_depth_id, p.max_inline_action_depth)
    ∷ (max_authority_depth_id, p.max_authority_depth)
    ∷ (max_total_ram_usage_id, p.max_total_ram_usage)
    ∷ (gas_per_cpu_ms_id, p.gas_per_cpu_ms)
    ∷ (gas_per_net_kb_id, p.gas_per_net_kb)
    ∷ (gas_per_ram_kb_id, p.gas_per_ram_kb)
    ∷ []

unfoldable pub written : Codec → List (Param × ℕ) → Bytes
written codec [] = []
written codec ((i, v) ∷ rest) = id_of i ∷ codec.write i v ++ written codec rest

-- The buffer that `setparams` gives to the host.
unfoldable pub packed : Codec → BlockchainParameters → Bytes
packed codec p = elim p.max_action_return_value_size as (λ _. Bytes) [
  | none ↦ params_v0_count ∷ written codec (fields p.base)
  | some v ↦
      (params_v0_count + 1) ∷ written codec (fields p.base)
      ++ written codec ((max_action_return_value_size_id, v) ∷ [])
]

unfoldable pub setparams :
    Codec → GlobalState → Context → BlockchainParameters → ParameterState → Result ParameterState
setparams codec defaults c params s = do
  check (c.has_auth c.self) "missing authority"
  let g = record (loaded defaults s) { parameters = params.base }
  check (leb 3 g.parameters.max_authority_depth) "max_authority_depth should be at least 3"
  ok (stored g (calls_host (set_parameters_packed (packed codec params)) s))

unfoldable pub setpriv : GlobalState → Context → ℕ → ℕ → ParameterState → Result ParameterState
setpriv defaults c account ispriv s = do
  check (c.has_auth c.self) "missing authority"
  ok (stored (loaded defaults s) (calls_host (set_privileged account ispriv) s))

unfoldable pub activate : GlobalState → Context → ℕ → ParameterState → Result ParameterState
activate defaults c feature_digest s = do
  check (c.has_auth c.self) "missing authority"
  ok (stored (loaded defaults s) (calls_host (preactivate_feature feature_digest) s))

unfoldable pub logsystemfee :
    GlobalState → Context → ℕ → Asset → String → ParameterState → Result ParameterState
logsystemfee defaults c protocol fee memo s = do
  check (c.has_auth c.self) "missing authority"
  ok (stored (loaded defaults s) s)

-- The interval of idle blocks is 0 where the table has no row.
unfoldable pub setibintervl : GlobalState → Context → ℕ → ParameterState → Result ParameterState
setibintervl defaults c idle_block_interval_ms s = do
  check (c.has_auth c.self) "missing authority"
  let old : ℕ = elim s.prodconf [ none ↦ 0 | some ms ↦ ms ]
  check (not (old == idle_block_interval_ms)) "idle block interval unchanged"
  ok (stored (loaded defaults s) (record s { prodconf = some idle_block_interval_ms }))

-- `native::setabi`; `sha256` is the library's hash.
unfoldable pub setabi : (Bytes → ℕ) → GlobalState → ℕ → Bytes → ParameterState → ParameterState
setabi sha256 defaults acnt abi s = elim (lookup acnt s.abi_hashes) as (λ _. ParameterState) [
  | none ↦ stored (loaded defaults s) (record s {
    abi_hashes = insert acnt (record { owner = acnt; hash = sha256 abi }) s.abi_hashes;
  })
  | some row ↦
      stored (loaded defaults s)
        (record s { abi_hashes = insert acnt (record row { hash = sha256 abi }) s.abi_hashes })
]
