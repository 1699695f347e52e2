-- ===== src/Tests.antt =====
-- The theorems at concrete inputs, and tests of the definitions.
pub mod Backends
pub mod Signing
pub mod Rooms
pub mod Messages
pub mod Members
pub mod Websocket
pub mod Videos
pub mod Streaming
pub mod Accounts
pub mod Uploads
pub mod Lives
pub mod Playing
pub mod Infrastructure
