-- ===== src/System/Parameters/Wasm.antt =====
-- contracts/flon.system/src/flon.system.cpp: `wasmcfg`, as the contract is built with
-- SYSTEM_CONFIGURABLE_WASM_LIMITS.
use flon_contracts.Base.{
  ℕ, ◌*◌, ◌/◌, ◌%◌, ◌^◌, ◌||◌, [], ◌∷◌, ◌++◌, ◌==◌, if◌then◌else◌, Result, ok, err, ◌>>◌, check,
}
use flon_contracts.Chain.{Context}
use flon_contracts.System.Finalizers.{Bytes}
use flon_contracts.System.Parameters.{
  GlobalState, ParameterState, HostCall, loaded, stored, calls_host,
}

-- "default"_n, "low"_n and "high"_n
abbrev pub default_name : ℕ
default_name = 5374603357560242176

abbrev pub low_name : ℕ
low_name = 10175883358043635712

abbrev pub high_name : ℕ
high_name = 7753175456936886272

pub record WasmParameters : Type 0 where
  pub max_mutable_global_bytes : ℕ
  pub max_table_elements : ℕ
  pub max_section_elements : ℕ
  pub max_linear_memory_init : ℕ
  pub max_func_local_bytes : ℕ
  pub max_nested_structures : ℕ
  pub max_symbol_bytes : ℕ
  pub max_module_bytes : ℕ
  pub max_code_bytes : ℕ
  pub max_pages : ℕ
  pub max_call_depth : ℕ

abbrev pub default_limits : WasmParameters
default_limits = record {
  max_mutable_global_bytes = 1024;
  max_table_elements = 1024;
  max_section_elements = 8192;
  max_linear_memory_init = 64 * 1024;
  max_func_local_bytes = 8192;
  max_nested_structures = 1024;
  max_symbol_bytes = 8192;
  max_module_bytes = 20 * 1024 * 1024;
  max_code_bytes = 20 * 1024 * 1024;
  max_pages = 528;
  max_call_depth = 251;
}

abbrev pub high_limits : WasmParameters
high_limits = record {
  max_mutable_global_bytes = 8192;
  max_table_elements = 8192;
  max_section_elements = 8192;
  max_linear_memory_init = 16 * 64 * 1024;
  max_func_local_bytes = 8192;
  max_nested_structures = 1024;
  max_symbol_bytes = 8192;
  max_module_bytes = 20 * 1024 * 1024;
  max_code_bytes = 20 * 1024 * 1024;
  max_pages = 528;
  max_call_depth = 1024;
}

-- A `uint32_t` in the memory of the machine.
unfoldable pub le32 : ℕ → Bytes
le32 v = v % 256 ∷ v / 2 ^ 8 % 256 ∷ v / 2 ^ 16 % 256 ∷ v / 2 ^ 24 % 256 ∷ []

-- The bytes that `memcpy` takes from the struct.
unfoldable pub in_memory : WasmParameters → Bytes
in_memory p =
    le32 p.max_mutable_global_bytes
    ++ le32 p.max_table_elements
    ++ le32 p.max_section_elements
    ++ le32 p.max_linear_memory_init
    ++ le32 p.max_func_local_bytes
    ++ le32 p.max_nested_structures
    ++ le32 p.max_symbol_bytes
    ++ le32 p.max_module_bytes
    ++ le32 p.max_code_bytes
    ++ le32 p.max_pages
    ++ le32 p.max_call_depth

unfoldable pub set_wasm_parameters : WasmParameters → ParameterState → ParameterState
set_wasm_parameters p s =
    calls_host (HostCall.set_wasm_parameters_packed (0 ∷ 0 ∷ 0 ∷ 0 ∷ in_memory p)) s

unfoldable pub wasmcfg : GlobalState → Context → ℕ → ParameterState → Result ParameterState
wasmcfg defaults c settings s = do
  check (c.has_auth c.self) "missing authority"
  if settings == default_name || settings == low_name
      then ok (stored (loaded defaults s) (set_wasm_parameters default_limits s))
      else if settings == high_name
      then ok (stored (loaded defaults s) (set_wasm_parameters high_limits s))
      else err "Unknown configuration"
