-- ===== src/Api.antt =====
-- internal/api: the HTTP interface of an agent.
pub mod Middleware
pub mod Whitelist
pub mod Tokens
pub mod State
pub mod Deployments
pub mod Services
pub mod Ingresses
pub mod Manifests
pub mod Start
pub mod Recovery
pub mod Sound
pub mod Listings
pub mod Server
mod Tests
mod ObjectTests
