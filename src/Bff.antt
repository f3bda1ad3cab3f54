-- ===== src/Bff.antt =====
-- bff/src: the NestJS backend-for-frontend.
pub mod Http
pub mod Configuration
pub mod Crypto
pub mod World
pub mod TokenCache
pub mod BackendClient
pub mod Session
pub mod Common
pub mod Csrf
pub mod Auth
pub mod Proxy
pub mod Dashboard
pub mod Notifications
pub mod Filter
pub mod Warmup
pub mod Tests
