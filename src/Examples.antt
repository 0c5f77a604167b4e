-- ===== src/Examples.antt =====
-- Concrete inputs, and the theorems applied to them: a codec that satisfies the laws, a policy, a
-- broker, and histories of calls.
pub mod PlainCodec
pub mod Sample
mod Limits
mod Stream
mod Leases
mod Table
mod History
mod Handlers
mod Policies
mod Providers
mod Proxy
mod Listings
