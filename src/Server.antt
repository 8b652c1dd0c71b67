-- ===== src/Server.antt =====
-- server/: the REST service.
pub mod Users
pub mod Auth
pub mod Transactions
pub mod Matching
pub mod Samples
mod Tests
pub mod Properties
pub mod Submission
pub mod Reads
pub mod Connections
pub mod Credits
pub mod RecordCalls
pub mod RecordUpdates
pub mod Requests
pub mod Registering
pub mod Info
pub mod Queries
pub mod Routes
