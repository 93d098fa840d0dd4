-- ===== src/License.antt =====
-- The terms and conditions of packages/client/src/license.
pub mod Items
pub mod Validator
pub mod Classification
pub mod Checks
pub mod Rules
pub mod Steps
pub mod Validity
pub mod Rights
pub mod Elements
