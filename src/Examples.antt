-- ===== src/Examples.antt =====
-- The theorems at concrete inputs.
mod Fixtures
mod Exports
mod Controls
mod Ledgers
mod Archives
mod Records
mod Names
mod Relays
mod Requests
mod Searches
