-- ===== src/Ingest.antt =====
-- internal/ingest: a message from the mail worker is parsed and stored. Message holds the data
-- types; Mime, Decoding and Parser are parser.go, with the libraries that it calls in Mime;
-- Fallback, Persist and Handler are handler.go; Database is the tables; the other child modules
-- hold what they guarantee.
pub mod Message
pub mod Mime
pub mod Decoding
pub mod Parser
pub mod Database
pub mod Fallback
pub mod Recipients
pub mod Leaves
pub mod Parsed
pub mod Utf8
pub mod Prepared
pub mod Persist
pub mod Handler
pub mod Atomicity
pub mod Steps
pub mod Files
pub mod Uniqueness
pub mod Answers
pub mod Responses
