-- ===== src/Workflow.antt =====
-- packages/graph/src/workflows/article-generation-workflow.ts: the article workflow.
pub mod State
pub mod Errors
pub mod Ports
pub mod Exec
pub mod Restore
pub mod Nodes
pub mod Gates
pub mod Graph
pub mod Outcome
pub mod Execute
pub mod Begin
pub mod Reviews
pub mod Unrolling
pub mod Frames
pub mod Sending
pub mod Termination
pub mod Approvable
pub mod Guards
pub mod Endings
pub mod Resuming
pub mod Failures
pub mod Finality
pub mod Publications
