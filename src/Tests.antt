-- ===== src/Tests.antt =====
-- Concrete inputs: the examples of the theorems, and runs of the definitions.
pub mod Toy
pub mod Tokens
pub mod Texts
pub mod Registry
pub mod Fixtures
pub mod Pages
pub mod Presentation
pub mod PeerToken
pub mod Clients
pub mod Commands
