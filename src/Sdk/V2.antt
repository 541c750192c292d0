-- ===== src/Sdk/V2.antt =====
-- Package eidovela, sdk/go/eidovela: the frozen v2 line.
pub mod Verify
pub mod Types
pub mod Client
