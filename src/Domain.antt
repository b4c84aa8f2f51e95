-- ===== src/Domain.antt =====
-- provider_simulator/domain: pools, providers, endpoints, scenario config, quirks, call log.
pub mod Endpoint
pub mod Config
pub mod Scenario
pub mod Quirks
pub mod CallLog
pub mod Provider
pub mod Registry
