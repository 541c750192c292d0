-- ===== src/Sdk/V3.antt =====
-- Package v3, sdk/go/eidovela/v3.
pub mod Verify
pub mod Types
pub mod Client
