-- ===== src/Tests.antt =====
-- Runs of the definitions, and each theorem with a hypothesis at a concrete input.
mod Access
mod Score
mod Replay
mod Board
mod Registration
mod Windows
mod Service
mod Payload
mod Flags
mod Views
mod Loaded
mod Verdicts
mod Credits
mod Freezes
