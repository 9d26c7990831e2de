-- ===== src/Settlement.antt =====
-- The settlement subsystem (src/settlement): what Qift owes its merchants, in batches that are
-- assembled, approved and remitted.
mod Tests
pub mod Errors
pub mod States
pub mod Policy
pub mod Calculator
pub mod Store
pub mod Canonical
pub mod Call
pub mod Statement
pub mod CreditNote
pub mod Binding
pub mod Engine
pub mod Execution
pub mod Refunds
