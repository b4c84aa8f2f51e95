-- ===== src/CacheSim.antt =====
-- provider_simulator/cache_sim.py: a simulated read-only secondary cache: a staged answer and a log
-- of every call. What the standard library and grpcio do with texts and numbers is a parameter,
-- `Library`. The log's lock makes each method one step, and a time stamp is an argument.
pub mod Entry
pub mod Log
pub mod Control
pub mod Plans
pub mod Staging
pub mod Lookups
pub mod Runs
pub mod Sims
mod Tests
