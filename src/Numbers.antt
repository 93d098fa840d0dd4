-- ===== src/Numbers.antt =====
-- packages/node-api/src/numbers.ts
pub mod Text
pub mod Normalized
pub mod Digits
pub mod Canonical
pub mod Scientific
pub mod Prefixed
pub mod Value
pub mod Shift
pub mod BigInt
pub mod Integral
pub mod Exact
