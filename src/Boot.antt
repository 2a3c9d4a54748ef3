-- ===== src/Boot.antt =====
-- contracts/flon.boot/src/flon.boot.cpp: the contract that activates protocol features on a new chain.
use flon_contracts.Base.{ℕ, Bool, List, [], ◌∷◌, ◌++◌, Result, ok, err, ◌>>◌, check}
use flon_contracts.Chain.{Context}

-- The state is the features that the host has been told to activate, in order.
unfoldable pub onerror : List ℕ → Result (List ℕ)
onerror features = err "the onerror action cannot be called directly"

unfoldable pub activate : Context → ℕ → List ℕ → Result (List ℕ)
activate c feature_digest features = do
  check (c.has_auth c.self) "missing authority"
  ok (features ++ feature_digest ∷ [])

-- `is_feature_activated` is what the host answers.
unfoldable pub reqactivated : (ℕ → Bool) → ℕ → List ℕ → Result (List ℕ)
reqactivated is_feature_activated feature_digest features = do
  check (is_feature_activated feature_digest) "protocol feature is not activated"
  ok features
