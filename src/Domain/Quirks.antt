-- ===== src/Domain/Quirks.antt =====
-- provider_simulator/domain/quirks.py: the settings of each chain. `quirks_for` is the one
-- authority for the chains that exist.
mod Tests
use provider_simulator.Base.{
  ℕ, String, Bool, true, false, not, ◌&&◌, ◌||◌, Option, none, some, List, [], ◌∷◌, if◌then◌else◌,
  ◌==◌,
}
use provider_simulator.Base.Int.{ℤ, pos, negsuc, leb_ℤ}
use provider_simulator.Base.Dict
use provider_simulator.Base.Dict.{Dict, string_key}
use provider_simulator.Base.Json.{Json, null, num, text, is_truthy}
use provider_simulator.Base.Results.{Result, ok, err, value_error, ◌>>=◌, ◌>>◌, raise_if}
use provider_simulator.Domain.Config.{ConfigClass}

-- stubs_solana.py and stubs_sui_graphql.py
abbrev pub solana_default_slot_block_gap : ℕ
solana_default_slot_block_gap = 21_900_000

abbrev pub sui_chain_id : String
sui_chain_id = "4btiuiMPvEENsttpZC7CZ53DruC3MAgfznDbASZ7DR6S"

abbrev pub sui_testnet_chain_id : String
sui_testnet_chain_id = "69WiPg3DAQiwdxfncX6wYQ2siKwAe6L9BZthQea3JNMD"

unfoldable pub no_validation : Dict String Json → Result (Unit {0})
no_validation cfg = ok tt

unfoldable pub quirks : ConfigClass
quirks = record { declared = []; validate = no_validation }

unfoldable pub eth_quirks : ConfigClass
eth_quirks = record {
  declared = ("logs_indexed_up_to", some null) ∷ ("logs_lag_mode", some (text "empty")) ∷ [];
  validate = no_validation;
}

unfoldable pub solana_quirks : ConfigClass
solana_quirks = record {
  declared =
      ("slot_block_gap", some (num (pos solana_default_slot_block_gap)))
      ∷ ("slot_offset", some (num (pos 0)))
      ∷ ("unknown_method_mode", some (text "null"))
      ∷ [];
  validate = no_validation;
}

-- isinstance(value, str)
abbrev pub is_str : Json → Bool
is_str (text s) = true
is_str _ = false

-- not isinstance(lag, bool) and isinstance(lag, int) and lag >= 0
abbrev pub is_lag : Json → Bool
is_lag (num n) = leb_ℤ (pos 0) n
is_lag _ = false

-- The test holds of the value of the key, when the key is there.
abbrev pub holds_if_there : String → (Json → Bool) → Dict String Json → Bool
holds_if_there key p cfg = elim (Dict.get key cfg) [ none ↦ true | some v ↦ p v ]

unfoldable pub validate_sui : Dict String Json → Result (Unit {0})
validate_sui cfg = do
  raise_if (not (holds_if_there "chain_id" is_str cfg)) value_error
  raise_if (not (holds_if_there "digest_salt" is_str cfg)) value_error
  raise_if (not (holds_if_there "chain_id" is_truthy cfg)) value_error
  raise_if (not (holds_if_there "transaction_index_lag_ms" is_lag cfg)) value_error

unfoldable pub sui_quirks_with : String → ConfigClass
sui_quirks_with chain_id = record {
  declared =
      ("chain_id", some (text chain_id))
      ∷ ("transaction_index_lag_ms", some (num (pos 0)))
      ∷ ("digest_salt", some (text ""))
      ∷ [];
  validate = validate_sui;
}

unfoldable pub quirks_by_chain : Dict String ConfigClass
quirks_by_chain =
    ("eth", eth_quirks)
    ∷ ("btc", quirks)
    ∷ ("ln", quirks)
    ∷ ("solana", solana_quirks)
    ∷ ("lava", quirks)
    ∷ ("sui", sui_quirks_with sui_chain_id)
    ∷ ("suit", sui_quirks_with sui_testnet_chain_id)
    ∷ []

unfoldable pub quirks_for : String → Result ConfigClass
unfolding quirks_by_chain
quirks_for chain = elim (Dict.get chain quirks_by_chain) [
  | none ↦ err value_error
  | some cls ↦ ok cls
]
