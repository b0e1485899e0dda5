-- ===== src/Server.antt =====
-- The server: its files, their locks, the replacement of files, and the requests.
pub mod State
pub mod FileLocks
pub mod Replacement
pub mod OpenFile
pub mod WriteFile
pub mod Invariant
pub mod Requests
pub mod Send
pub mod CloseFile
pub mod RemoveFile
pub mod ReadFile
pub mod Workers
pub mod History
pub mod Main
pub mod Settings
