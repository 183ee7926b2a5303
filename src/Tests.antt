-- ===== src/Tests.antt =====
-- Runs of the theorems on concrete inputs.
mod Machine
mod Hashing
mod Chunks
mod Pages
mod Table
mod Cache
mod Queues
mod Sending
mod Threads
mod Growth
mod Whole
mod Answers
mod Clients
