-- ===== src/Monitor.antt =====
-- src/server/monitor.c and src/include/monitor.h: the administration protocol.
pub mod Types
pub mod Parser
pub mod Commands
pub mod Deletion
pub mod Addition
pub mod Reply
