-- ===== src/Listeners.antt =====
-- provider_simulator/listeners: the flow of one request, and the wire codecs that the listeners share.
pub mod WsProtocol
pub mod Wire
pub mod Listener
pub mod Defaults
pub mod JsonRpc
pub mod Tendermint
pub mod Rest
