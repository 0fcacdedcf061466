-- ===== src/Scenarios.antt =====
-- Runs of the definitions at concrete inputs.
mod Log
mod Polls
mod Rooms
mod Ids
mod Bots
mod Commands
mod Receiver
mod Tokens
mod Files
