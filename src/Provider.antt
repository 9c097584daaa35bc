-- ===== src/Provider.antt =====
-- The provider library: provider/src and provider/include/provider.
pub mod BodyScan
pub mod Json
pub mod JsonScan
pub mod Openai
pub mod Sse
mod Witnesses
