-- ===== src/Sdk/V3/Client.antt =====
-- The client of package v3, sdk/go/eidovela/v3/client.go: each method as what it asks for. The children
-- hold the methods.
pub mod Enrollment
pub mod Views
pub mod Trusts
pub mod Paths
