-- ===== src/Tests.antt =====
-- Runs of the model on concrete inputs, and the theorems at concrete inputs.
mod Names
mod Messages
mod Locks
mod Entries
mod Table
mod Queries
mod Answers
mod Sockets
mod Conflicts
mod Files
mod Stores
mod Replies
