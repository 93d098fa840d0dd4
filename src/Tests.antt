-- ===== src/Tests.antt =====
-- Runs at concrete inputs, and the theorems at inputs that meet their hypotheses.
mod Money
mod Replacements
mod Payments
mod Licenses
mod Protections
mod Hashes
mod Sources
mod Tokens
mod Waits
mod Accounts
mod Networks
mod LocItems
mod LocData
mod LocsStates
mod OpenLocs
mod Submissions
