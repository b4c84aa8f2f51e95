-- ===== src/Domain/Quirks/Tests.antt =====
-- Runs of provider_simulator/domain/quirks.py.
use provider_simulator.Base.{◌≡◌, refl, [], ◌∷◌}
use provider_simulator.Base.Int.{negsuc}
use provider_simulator.Base.Json.{num, text}
use provider_simulator.Base.Results.{ok, err, value_error}
use provider_simulator.Domain.Config.{check, is_field}
use provider_simulator.Domain.Quirks.{
  validate_sui, quirks, sui_quirks_with, quirks_for, sui_chain_id,
}

unknown_chain : (quirks_for "dogecoin" ≡ err value_error) × (quirks_for "btc" ≡ ok quirks)
unfolding quirks_for
unknown_chain = (refl, refl)

sui_checks :
    (check (sui_quirks_with sui_chain_id) (("transaction_index_lag_ms", num (negsuc 0)) ∷ [])
      ≡ err value_error)
    × (check (sui_quirks_with sui_chain_id) (("chain_id", text "") ∷ []) ≡ err value_error)
    × (check (sui_quirks_with sui_chain_id) (("chain_id", text "x") ∷ []) ≡ ok tt)
unfolding check is_field sui_quirks_with validate_sui
sui_checks = (refl, refl, refl)
