-- ===== src/Chat/Repository.antt =====
-- internal/chat/repository: the three repositories, as interfaces and over MongoDB. A context is
-- not modelled, since nothing here cancels one.
pub mod Room
pub mod Invitation
pub mod Message
pub mod PubSub
