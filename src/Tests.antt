-- ===== src/Tests.antt =====
-- Runs of the crate in a small world, and each theorem applied to one of them.
mod Unanswered
mod Tasks
mod Echoes
mod Toy
mod Transfers
mod Sockets
mod Streams
mod Polls
mod Starts
mod Events
mod Rejections
mod Races
mod Executors
