-- ===== src/Streaming.antt =====
-- The streaming service, internal/streaming: the upload of a video, its gRPC server, and the worker
-- that transcodes it.
pub mod Decimal
pub mod Domain
pub mod Pb
pub mod Repository
pub mod Storage
pub mod UseCase
pub mod Playback
pub mod Server
pub mod Http
pub mod Lifecycle
pub mod Worker
