-- ===== src/Daemon.antt =====
-- src/contexts/daemon: the background cache.
pub mod Snapshot
pub mod Entry
pub mod Freshness
pub mod Policy
pub mod Store
pub mod Transition
pub mod Config
pub mod Workers
pub mod Watch
pub mod RateLimitClient
pub mod RepoIds
pub mod Handler
pub mod Actor
pub mod Connection
pub mod Files
pub mod Pid
pub mod Listener
pub mod Client
pub mod Lifecycle
pub mod Command
pub mod Restart
pub mod Server
