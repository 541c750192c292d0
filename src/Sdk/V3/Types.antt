-- ===== src/Sdk/V3/Types.antt =====
-- The structs that the client of sdk/go/eidovela/v3 sends and receives.
pub mod Enrollment
pub mod Views
pub mod Events
pub mod Trusts
pub mod States
