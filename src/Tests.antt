-- ===== src/Tests.antt =====
-- Concrete inputs: lists in memory, small instances of the libraries, and the theorems at them.
mod Lists
mod Queues
mod Tasks
mod Sessions
mod Hub
mod Http
mod Instances
mod Fuzz
mod Whole
