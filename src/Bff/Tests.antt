-- ===== src/Bff/Tests.antt =====
-- Concrete inputs for the theorems about the server, and runs of its code on them.
mod Fixture
mod SessionRuns
mod ProxyRuns
mod ViewRuns
mod CacheRuns
mod StreamRuns
