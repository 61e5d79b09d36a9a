-- ===== src/Tests.antt =====
-- The theorems at concrete inputs.
mod Streams
mod Parsers
mod Tables
mod Administration
mod Descriptors
mod Sessions
mod Copies
mod Service
mod Arrivals
mod Clients
mod Starts
mod Rounds
mod Retries
mod Mains
mod Answers
mod Lines
