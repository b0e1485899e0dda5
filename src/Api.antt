-- ===== src/Api.antt =====
-- src/api: the library of a client, the other end of the protocol. One call sends a request over the
-- connection and reads the server's answer from it.
pub mod State
pub mod Calls
pub mod Files
pub mod Arrivals
pub mod Transfers
pub mod Serves
pub mod Laws
pub mod Time
