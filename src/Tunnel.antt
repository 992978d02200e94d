-- ===== src/Tunnel.antt =====
-- internal/proxy/tunnel.go: the registry of tunnels, relay, relayHTTP1 and relayHTTP2. A pointer to a
-- tunnelPair is the number of pairs that were made before it. A method under the mutex is one step.
-- What the copies, the writes and the half-closes come to is given.
pub mod Registry
pub mod Relay
pub mod Shutdown
pub mod Closed
pub mod Idle
mod Tests
