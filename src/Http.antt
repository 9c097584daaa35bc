-- ===== src/Http.antt =====
-- HTTP/1.1 framing: net/include/net/http.hpp and net/include/net/http_write.hpp.
pub mod Text
pub mod Fields
pub mod Lines
pub mod Request
pub mod Response
pub mod Chunked
pub mod Framer
pub mod Write
mod Tests
mod Witnesses
