-- ===== src/Tests.antt =====
-- Runs of the model at concrete inputs, and instances of its theorems.
mod DaemonData
mod EvaluationData
mod Cache
mod Policy
mod Server
mod Verdicts
mod Rendering
mod Formats
mod Workers
mod Loading
mod Watching
mod Client
mod Processes
mod Logging
mod Cycles
mod Shutdown
mod Refreshing
