-- ===== src/Sdk.antt =====
-- The Go SDK (sdk/go/eidovela and sdk/go/eidovela/v3). The two packages repeat the helpers and the
-- authenticating part of Verify word for word; these stand in Sdk/Token.
pub mod Token
pub mod Http
pub mod Wire
pub mod Proofs
pub mod V3
pub mod Presentation
pub mod V2
