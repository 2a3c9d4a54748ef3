-- ===== src/System/Parameters/Packing.antt =====
-- About the buffer of `setparams` in contracts/flon.system/src/flon.system.cpp: the host reads from
-- it what the parameters are.
use flon_contracts.Base.{
  ℕ, zero, suc, ◌≡◌, ◌≤◌, refl, sym, List, [], ◌∷◌, ◌++◌, Option, none, some, ok, Dict, lookup,
  size, All, arith,
}
use mathlib.Core.List.{append_assoc}
use flon_contracts.Chain.{Context}
use flon_contracts.System.Finalizers.{Bytes}
use flon_contracts.System.Parameters.{
  Param, BlockchainParameters, ChainParameters, GlobalState, ParameterState, HostCall, Codec, id_of,
  fields, written, packed, setparams, loaded,
}

-- How the host reads the buffer: `n` parameters, each an ID and its value, and nothing else.
unfoldable pub unpack : Codec → ℕ → Bytes → Option (Dict ℕ)
unpack codec zero [] = some []
unpack codec zero (b ∷ rest) = none
unpack codec (suc n) [] = none
unpack codec (suc n) (i ∷ rest) = elim (codec.read i rest) as (λ _. Option (Dict ℕ)) [
  | none ↦ none
  | some (v, later) ↦ elim (unpack codec n later) as (λ _. Option (Dict ℕ)) [
    | none ↦ none
    | some d ↦ some ((i, v) ∷ d)
  ]
]

abbrev pub unpack_buffer : Codec → Bytes → Option (Dict ℕ)
unpack_buffer codec [] = none
unpack_buffer codec (count ∷ rest) = unpack codec count rest

-- The value of each parameter.
unfoldable pub value_of : Param → BlockchainParameters → Option ℕ
value_of Param.max_block_net_usage_id p = some p.base.max_block_net_usage
value_of Param.target_block_net_usage_pct_id p = some p.base.target_block_net_usage_pct
value_of Param.max_transaction_net_usage_id p = some p.base.max_transaction_net_usage
value_of Param.base_per_transaction_net_usage_id p = some p.base.base_per_transaction_net_usage
value_of Param.net_usage_leeway_id p = some p.base.net_usage_leeway
value_of Param.context_free_discount_net_usage_num_id p =
    some p.base.context_free_discount_net_usage_num
value_of Param.context_free_discount_net_usage_den_id p =
    some p.base.context_free_discount_net_usage_den
value_of Param.max_block_cpu_usage_id p = some p.base.max_block_cpu_usage
value_of Param.target_block_cpu_usage_pct_id p = some p.base.target_block_cpu_usage_pct
value_of Param.max_transaction_cpu_usage_id p = some p.base.max_transaction_cpu_usage
value_of Param.min_transaction_cpu_usage_id p = some p.base.min_transaction_cpu_usage
value_of Param.max_transaction_lifetime_id p = some p.base.max_transaction_lifetime
value_of Param.deferred_trx_expiration_window_id p = some p.base.deferred_trx_expiration_window
value_of Param.max_transaction_delay_id p = some p.base.max_transaction_delay
value_of Param.max_inline_action_size_id p = some p.base.max_inline_action_size
value_of Param.max_inline_action_depth_id p = some p.base.max_inline_action_depth
value_of Param.max_authority_depth_id p = some p.base.max_authority_depth
value_of Param.max_total_ram_usage_id p = some p.base.max_total_ram_usage
value_of Param.gas_per_cpu_ms_id p = some p.base.gas_per_cpu_ms
value_of Param.gas_per_net_kb_id p = some p.base.gas_per_net_kb
value_of Param.gas_per_ram_kb_id p = some p.base.gas_per_ram_kb
value_of Param.max_action_return_value_size_id p = p.max_action_return_value_size

abbrev rows : List (Param × ℕ) → Dict ℕ
rows [] = []
rows ((i, v) ∷ rest) = (id_of i, v) ∷ rows rest

abbrev number : List (Param × ℕ) → ℕ
number [] = zero
number (e ∷ rest) = suc (number rest)

unpack-written :
    (codec : Codec) (fs : List (Param × ℕ))
    → All (λ e. codec.Fits e.0 e.1) fs
    → unpack codec (number fs) (written codec fs) ≡ some (rows fs)
unfolding unpack written
unpack-written codec [] fit = refl
unpack-written codec ((i, v) ∷ fs) fit =
    rw (codec.read-write i v (written codec fs) fit.0, unpack-written codec fs fit.1) refl

written-append :
    (codec : Codec) (xs ys : List (Param × ℕ))
    → written codec (xs ++ ys) ≡ written codec xs ++ written codec ys
unfolding written
written-append codec [] ys = refl
written-append codec ((i, v) ∷ xs) ys = simp (written-append codec xs ys, append_assoc)

-- All parameters that are written.
abbrev pub all_fields : BlockchainParameters → List (Param × ℕ)
all_fields p = elim p.max_action_return_value_size [
  | none ↦ fields p.base
  | some v ↦ fields p.base ++ (Param.max_action_return_value_size_id, v) ∷ []
]

abbrev with_size : ChainParameters → Option ℕ → BlockchainParameters
with_size base size = record { base = base; max_action_return_value_size = size }

unpack-packed :
    (codec : Codec) (base : ChainParameters) (size : Option ℕ)
    → All (λ e. codec.Fits e.0 e.1) (all_fields (with_size base size))
    → unpack_buffer codec (packed codec (with_size base size))
      ≡ some (rows (all_fields (with_size base size)))
unfolding packed fields
unpack-packed codec base none fit = unpack-written codec (fields base) fit
unpack-packed codec base (some v) fit =
    let last : List (Param × ℕ) = (Param.max_action_return_value_size_id, v) ∷ [] in
    rw (sym (written-append codec (fields base) last))
      (unpack-written codec (fields base ++ last) fit)

lookup-rows :
    (base : ChainParameters) (size : Option ℕ) (i : Param)
    → lookup (id_of i) (rows (all_fields (with_size base size))) ≡ value_of i (with_size base size)
unfolding id_of fields value_of
lookup-rows base none i = ground arith
lookup-rows base (some v) i = ground arith

-- A setparams that succeeds stores the parameters in the global state, where the depth of
-- authorities is at least 3 then, and gives the host one buffer; from this the host reads every
-- parameter under its ID, with the optional one if it is there, and nothing else, if the values are
-- in the ranges of their types.
pub setparams_packed :
    (codec : Codec) (defaults : GlobalState) (c : Context) (params : BlockchainParameters)
    (s t : ParameterState)
    → All (λ e. codec.Fits e.0 e.1) (all_fields params)
    → setparams codec defaults c params s ≡ ok t
    → (buffer : Bytes) × (d : Dict ℕ) × (t.calls
        ≡ s.calls ++ HostCall.set_parameters_packed buffer ∷ [])
      × (unpack_buffer codec buffer ≡ some d)
      × ((i : Param) → lookup (id_of i) d ≡ value_of i params)
      × ((loaded defaults t).parameters ≡ params.base)
      × (3 ≤ (loaded defaults t).parameters.max_authority_depth)
unfolding setparams loaded
setparams_packed codec defaults c params s t fit h = (
  packed codec params,
  rows (all_fields params),
  ground arith,
  unpack-packed codec params.base params.max_action_return_value_size fit,
  lookup-rows params.base params.max_action_return_value_size,
  ground arith,
  ground arith,
)
