-- ===== src/Chat.antt =====
-- The chat service, internal/chat: its data, its repositories over MongoDB, and the two use cases
-- that the websocket handler calls.
pub mod Domain
pub mod Channels
pub mod Repository
pub mod RoomUseCase
pub mod MessageUseCase
pub mod Frames
pub mod Websocket
