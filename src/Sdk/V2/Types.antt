-- ===== src/Sdk/V2/Types.antt =====
-- The structs that the client of sdk/go/eidovela sends and receives.
pub mod Agents
pub mod Instances
pub mod Trusts
pub mod Events
