-- ===== src/Provider/Json.antt =====
-- JSON texts (provider/include/provider/json.hpp): the escaper and its inverse, the parser's tokens,
-- and the parser in the children.
pub mod Escape
pub mod Tokens
pub mod Keys
pub mod Parse
pub mod Lookup
mod Witnesses
