-- ===== src/Domain/Endpoint.antt =====
-- provider_simulator/domain/endpoint.py: one network endpoint that a provider listens on.
use provider_simulator.Base.{ℕ, String, List, [], ◌∷◌}

abbrev pub interfaces : List String
interfaces = "jsonrpc" ∷ "rest" ∷ "grpc" ∷ "tendermintrpc" ∷ "graphql" ∷ []

abbrev pub transports : List String
transports = "http" ∷ "http2" ∷ "ws" ∷ []

pub record Endpoint : Type 0 where
  pub interface : String
  pub transport : String
  pub port : ℕ
