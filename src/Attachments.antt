-- ===== src/Attachments.antt =====
-- The attachments of server/src/transport/http/commercial.rs: an upload session, the parts of a
-- multipart upload, completion, and the catalogue. A handler works on the in-memory store and on the
-- object store, which the children take as an `ObjectStore`.
pub mod Plan
pub mod Parts
pub mod Objects
pub mod Session
pub mod Upload
pub mod Complete
pub mod Catalog
pub mod Steps
pub mod Checks
pub mod Receive
pub mod Requests
pub mod Soundness
pub mod Frame
pub mod Completion
pub mod Recording
