-- ===== src/Gateway.antt =====
-- The gateway's connections: gateway/src/core.
pub mod OutBuf
pub mod Pool
pub mod Registry
pub mod Splice
mod Witnesses
