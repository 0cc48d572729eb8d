-- ===== src/Api.antt =====
-- internal/api: the handlers of messages.go and attachments.go. The child modules hold the request
-- parameters (Params), the SQL (Sql), the handlers (Messages, Attachments), and what they
-- guarantee. Errors is errors.go, which no handler uses.
pub mod Params
pub mod Sql
pub mod Statements
pub mod Messages
pub mod Attachments
pub mod Identifiers
pub mod Paging
pub mod Filenames
pub mod Privacy
pub mod Errors
pub mod Responses
