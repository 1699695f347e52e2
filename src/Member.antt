-- ===== src/Member.antt =====
-- The member service, internal/member.
pub mod Domain
pub mod Repository
pub mod UseCase
pub mod Handler
