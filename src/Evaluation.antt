-- ===== src/Evaluation.antt =====
-- src/contexts/evaluation: the state of the pull requests, and how it is shown.
pub mod State
pub mod Gh
pub mod Display
pub mod CompareUrl
pub mod Fetch
pub mod Format
pub mod Style
pub mod Token
pub mod Config
pub mod Loader
pub mod Render
pub mod Logger
