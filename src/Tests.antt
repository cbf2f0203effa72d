-- ===== src/Tests.antt =====
-- Runs of the code, and the theorems at concrete inputs.
mod Stores
mod Parsers
mod Replicas
mod Servers
mod Sessions
