-- ===== src/Node.antt =====
-- EGG-Chain/crates/egg-node/src/lib.rs: the sessions in which two nodes exchange headers and blocks.
pub mod Defs
pub mod Recv
pub mod Session
pub mod Responder
pub mod Stream
pub mod Syncer
pub mod Download
pub mod Run
pub mod Boot
pub mod Requests
pub mod Quiet
pub mod Attempts
pub mod Fair
pub mod Placed
pub mod FairSteps
pub mod FairDownload
pub mod PlacedSteps
pub mod PlacedFill
pub mod PlacedBlocks
pub mod HeadersQuiet
pub mod Bound
pub mod Queueing
pub mod Headers
pub mod Received
pub mod HeadersAdded
pub mod Finished
pub mod Complete
pub mod Sizes
pub mod Settles
pub mod SyncSettles
pub mod HeadersEnd
pub mod Ends
pub mod Answers
