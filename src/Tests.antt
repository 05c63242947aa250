-- ===== src/Tests.antt =====
-- The theorems at concrete inputs.
mod Samples
mod Settings
mod Table
mod Wire
mod Answers
mod Service
mod Metrics
mod Log
mod Disk
mod Process
mod Remote
mod Exchange
mod Running
