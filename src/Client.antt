-- ===== src/Client.antt =====
-- AfsClient.h: the class `AfsClient`, on the client's process.
pub mod Process
pub mod Retry
pub mod Transfer
pub mod Names
pub mod Files
pub mod Keeps
pub mod Ready
pub mod Down
pub mod Edits
pub mod Operations
pub mod Open
pub mod Results
pub mod Write
pub mod Release
pub mod Missing
pub mod Read
pub mod Unmarked
pub mod WriteRead
