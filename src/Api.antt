-- ===== src/Api.antt =====
-- The API gateway, internal/api: HTTP handlers that pass requests on to the gRPC services.
pub mod Http
pub mod Upload
pub mod Streaming
pub mod Member
pub mod Rpc
pub mod Router
