-- ===== src/Lib.antt =====
-- The streaming video service is a set of Go services behind an API gateway. This library models
-- the gateway (internal/api), the chat service (internal/chat), the member service
-- (internal/member) and the streaming service (internal/streaming), with the packages that they
-- share (pkg/config, pkg/database, pkg/encrypt, pkg/logger, pkg/middlewares, pkg/token,
-- pkg/tool.go), and proves what their operations do to the databases behind them.
--
-- How the parts interact. A websocket connection of the chat service is let in by the middleware,
-- which reads the member from a token. The handler passes each request to the room use case or the
-- message use case; these read and write rooms, invitations and buckets of messages through
-- repositories over MongoDB, and publish new messages through Redis. The member service registers
-- members in PostgreSQL, makes their tokens, and keeps their sessions in Redis. The streaming
-- service stores an uploaded video in MinIO and PostgreSQL and puts a job into a queue of
-- RabbitMQ; its worker takes the jobs, transcodes the videos with FFmpeg, stores the results in
-- MinIO and marks the videos as ready. The gateway answers HTTP requests by calls of the gRPC
-- servers of the member and the streaming service: it logs a member in by a cookie with the token,
-- sends an uploaded file as a stream of chunks, and passes the playlists and segments of a video
-- on.
--
-- The files:
--
-- - Prelude and its children: the library names that the modules share, tests on numbers and
--   texts, and the searches and updates of a list with their laws. Golang: errors, results, and
--   calls that may panic. Golang.FilePath: `filepath.Join` of the standard library.
-- - Mongo: the driver's collection as a record of operations over a state; `Documented` holds what
--   its manual says of a call, `Available` that the server answers. Mongo.Sample: a collection in
--   memory, for the tests, and two servers that fail.
-- - Contains: `Contains` of pkg/tool.go and the loop of `ExitRoom` that copies all members but
--   one.
-- - Chat.Domain, Chat.Frames: internal/chat/domain. Chat.Repository.*: internal/chat/repository,
--   with the filters as tests, the `$set` documents as changes, and the bson tag `omitempty`
--   written out.
-- - Chat.RoomUseCase: internal/chat/app/room_usecause.go; an operation takes the two collections
--   and gives its result beside what they become. Chat.MessageUseCase:
--   internal/chat/app/message_usecase.go, likewise. Chat.Websocket:
--   internal/chat/app/websocket_handler.go; the record `Hub` has the databases, the field
--   `roomCtx`, the subscriptions made and cancelled, and the frames written.
-- - Encrypt, Token, Redis: pkg/encrypt/encrypt.go, pkg/token/token.go with
--   pkg/middlewares/token.go, and pkg/database/redis.go.
-- - Member.Domain, Member.Repository, Member.UseCase, Member.Handler: internal/member/domain,
--   repository and app.
-- - Streaming.Domain, Streaming.Repository, Streaming.UseCase, Streaming.Playback,
--   Streaming.Server, Streaming.Worker: internal/streaming/domain, repository, and
--   app/streaming_usecase.go, app/streaming_handler.go and app/work.go. Streaming.Pb:
--   pkg/proto/streaming/streaming.proto. Streaming.Http:
--   internal/streaming/api/handlers/video_handler.go. Streaming.Storage: pkg/database/minio.go.
--   Streaming.Decimal: the format %d of an id. Streaming.Lifecycle: the life of a video, as the
--   abstract view of the database.
-- - Api.Http, Api.Member, Api.Upload, Api.Streaming: the responses,
--   internal/api/handlers/member_handler.go, and the upload and the other handlers of
--   internal/api/handlers/streaming_handler.go. Api.Rpc: what a call of gRPC gives the caller.
--   Api.Router: the routes that internal/api/router, internal/chat/router and
--   internal/streaming/api/router register.
-- - Config, Connect, Logger: pkg/config/loader.go, the connections of pkg/database, and
--   pkg/logger/logger.go with the gateway's internal/api/handlers/handler.go.
-- - Tests: the tests, and each theorem at a concrete input.
--
-- A record of the source that the services call through an interface is a record of functions
-- here, and the code that implements it fills the record. What is not part of the repository is a
-- parameter: MongoDB, PostgreSQL with pgx and gorm, Redis, MinIO, RabbitMQ, JSON, bcrypt, golang-
-- jwt, gRPC, fiber, and the operating system's files. What the code relies on of it is a named
-- record of laws (`Documented`, `Available`, `Tabular`, `Answers`, `Keyed`, `Up`, `Hashes`,
-- `Signs`, `Puts`, `PutsBack`, `ReadsAll`, `InOrder`, `Delivered`, `Carried`, `Plays`, `Opens`,
-- `Saves`, `Sets`, `Copies`, `Compact`, `Stored`), and Tests.Backends, the other modules of Tests
-- and Mongo.Sample show that each can hold. The clock, `uuid.New` and the day of a bucket are
-- arguments.
--
-- Bounds. Times and the ids of rows are natural numbers; no operation here adds to one but a time
-- to live to a time, so that 64 bits do not overflow for any date in use. Limits and numbers of
-- retries are not negative; a pause in seconds wraps around as the 64-bit product that it is.
-- Every loop runs over a list that it consumes or counts down the attempts that are left, but for
-- two: the worker's loop, which does not end, takes the number of messages that it has seen, and
-- the gateway's loop over a file runs on fuel, of which one unit for each byte and one more are
-- enough.
--
-- Not modelled: how fiber matches a path, the wiring of the services and generated code, the
-- structures of the configuration and viper's reading of them, and the fields and files of the
-- logger. Of the chat service: the pings of a connection, and the aggregation that counts unread
-- messages, which MongoDB runs. The roles and the statuses "banned" and "deleted" are only
-- constants in the source.
pub mod Prelude
pub mod Golang
pub mod Mongo
pub mod Contains
pub mod Api
pub mod Chat
pub mod Config
pub mod Connect
pub mod Encrypt
pub mod Logger
pub mod Member
pub mod Redis
pub mod Streaming
pub mod Token
pub mod Tests
