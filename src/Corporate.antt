-- ===== src/Corporate.antt =====
-- Corporate gifting (src/corporate): the roster file of a company.
mod Tests
pub mod Text
pub mod Csv
pub mod Header
pub mod Roster
