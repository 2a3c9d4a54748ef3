-- ===== src/System/Parameters/Tests.antt =====
-- The parameters and the start of contracts/flon.system at concrete inputs.
use flon_contracts.Base.{
  ℕ, ◌+◌, ◌*◌, ◌/◌, ◌%◌, ◌^◌, ◌≡◌, ◌≤◌, ◌<◌, ◌++◌, refl, true, [], ◌∷◌, Option, none, some, pos, ok,
  err, lookup, Dict, All, arith,
}
use flon_contracts.Chain.{Symbol, asset, Context}
use flon_contracts.Token.{TokenState}
use flon_contracts.System.Finalizers.{Bytes}
use flon_contracts.System.Accounts.{gas_account}
use flon_contracts.System.Parameters.{
  Param, id_of, ChainParameters, BlockchainParameters, GlobalState, ParameterState, Inline,
  HostCall, Codec, loaded, fields, packed, setparams, setibintervl,
}
use flon_contracts.System.Parameters.Packing.{all_fields, value_of, unpack_buffer, setparams_packed}
use flon_contracts.System.Parameters.Wasm.{le32, in_memory, set_wasm_parameters, wasmcfg, low_name}
use flon_contracts.System.Parameters.Init.{denominated}

-- Each value is a number of four bytes.
abbrev read_le32 : ℕ → Bytes → Option (ℕ × Bytes)
read_le32 i (a ∷ b ∷ c ∷ d ∷ rest) = some (a + b * 2 ^ 8 + c * 2 ^ 16 + d * 2 ^ 24, rest)
read_le32 i _ = none

bytes_of :
    (v : ℕ)
    → v < 2 ^ 32
    → v % 256 + v / 2 ^ 8 % 256 * 2 ^ 8 + v / 2 ^ 16 % 256 * 2 ^ 16 + v / 2 ^ 24 % 256 * 2 ^ 24 ≡ v
bytes_of v h = omega arith

read_le32-le32 :
    (i v : ℕ) (rest : Bytes) → v < 2 ^ 32 → read_le32 i (le32 v ++ rest) ≡ some (v, rest)
unfolding le32
read_le32-le32 i v rest h = rw (bytes_of v h) refl

abbrev plain : Codec
plain = record {
  write = λ i v. le32 v;
  read = read_le32;
  Fits = λ i v. v < 2 ^ 32;
  read-write = λ i v rest fit. read_le32-le32 (id_of i) v rest fit;
}

abbrev base : ChainParameters
base = record {
  max_block_net_usage = 100;
  target_block_net_usage_pct = 101;
  max_transaction_net_usage = 102;
  base_per_transaction_net_usage = 103;
  net_usage_leeway = 104;
  context_free_discount_net_usage_num = 105;
  context_free_discount_net_usage_den = 106;
  max_block_cpu_usage = 107;
  target_block_cpu_usage_pct = 108;
  max_transaction_cpu_usage = 109;
  min_transaction_cpu_usage = 110;
  max_transaction_lifetime = 111;
  deferred_trx_expiration_window = 112;
  max_transaction_delay = 113;
  max_inline_action_size = 114;
  max_inline_action_depth = 115;
  max_authority_depth = 6;
  max_total_ram_usage = 117;
  gas_per_cpu_ms = 118;
  gas_per_net_kb = 119;
  gas_per_ram_kb = 120;
}

abbrev params : BlockchainParameters
params = record { base = base; max_action_return_value_size = some 256 }

abbrev none_yet : Symbol
none_yet = record { code = 0; precision = 0 }

abbrev flon : Symbol
flon = record { code = 1313819718; precision = 8 }

abbrev defaults : GlobalState
defaults = record {
  parameters = record base { max_authority_depth = 2 };
  total_vote_stake = asset (pos 0) none_yet;
  initial_rewards_per_block = asset (pos 0) none_yet;
  total_produced_rewards = asset (pos 0) none_yet;
  total_unclaimed_rewards = asset (pos 0) none_yet;
}

abbrev itself : Context
itself = record {
  has_auth = λ _. true;
  is_account = λ _. true;
  self = 9;
  now = 0;
  now_sec = 0;
  now_slot = 0;
}

abbrev before : ParameterState
before = record { global = none; prodconf = none; abi_hashes = []; calls = []; sent = [] }

abbrev set : ParameterState
set = record before {
  global = some (record defaults { parameters = base });
  calls = HostCall.set_parameters_packed (packed plain params) ∷ [];
}

sets : setparams plain defaults itself params before ≡ ok set
unfolding setparams loaded
sets = refl

params_in_range : All (λ e. plain.Fits e.0 e.1) (all_fields params)
unfolding fields
params_in_range = ground arith

setparams_packed_example :
    (buffer : Bytes) × (d : Dict ℕ) × (set.calls
      ≡ before.calls ++ HostCall.set_parameters_packed buffer ∷ [])
    × (unpack_buffer plain buffer ≡ some d)
    × ((i : Param) → lookup (id_of i) d ≡ value_of i params)
    × ((loaded defaults set).parameters ≡ params.base)
    × (3 ≤ (loaded defaults set).parameters.max_authority_depth)
setparams_packed_example =
    setparams_packed plain defaults itself params before set params_in_range sets

-- An authority as deep as 2 is refused.
shallow :
    setparams plain defaults itself (record params { base = defaults.parameters }) before
    ≡ err "max_authority_depth should be at least 3"
unfolding setparams loaded
shallow = refl

-- The interval of idle blocks is 0 at first.
idle : setibintervl defaults itself 0 before ≡ err "idle block interval unchanged"
unfolding setibintervl
idle = refl

low_limits :
    wasmcfg defaults itself low_name before
    ≡ ok (record before {
      global = some defaults;
      calls =
          HostCall.set_wasm_parameters_packed (
            0 ∷ 0 ∷ 0 ∷ 0 ∷ 0 ∷ 4 ∷ 0 ∷ 0 ∷ 0 ∷ 4 ∷ 0 ∷ 0 ∷ 0 ∷ 32 ∷ 0 ∷ 0 ∷ 0 ∷ 0 ∷ 1 ∷ 0 ∷ 0 ∷ 32
            ∷ 0 ∷ 0 ∷ 0 ∷ 4 ∷ 0 ∷ 0 ∷ 0 ∷ 32 ∷ 0 ∷ 0 ∷ 0 ∷ 0 ∷ 64 ∷ 1 ∷ 0 ∷ 0 ∷ 64 ∷ 1 ∷ 16 ∷ 2 ∷ 0
            ∷ 0 ∷ 251 ∷ 0 ∷ 0 ∷ 0 ∷ [])
          ∷ [];
    })
unfolding wasmcfg set_wasm_parameters in_memory le32 loaded
low_limits = refl

abbrev tokens : TokenState
tokens = record {
  stats =
      (
        1313819718,
        record { supply = asset (pos 1000) flon; max_supply = asset (pos 5000) flon; issuer = 3 },
      )
      ∷ [];
  accounts = [];
  notified = [];
}

abbrev started : ParameterState
started = record before {
  global = some (denominated flon defaults);
  sent = Inline.opens gas_account flon 9 ∷ Inline.inits_reward flon ∷ [];
}
