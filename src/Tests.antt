-- ===== src/Tests.antt =====
-- The theorems at concrete inputs.
mod Fixtures
mod Requests
mod Responses
mod Reads
mod Tables
mod Flags
mod Main
mod Exchanges
