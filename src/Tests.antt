-- ===== src/Tests.antt =====
-- Tests: runs of the model on concrete inputs.
mod Data
mod Facts
mod Witnesses
mod Leaving
mod Names
mod Calls
mod Start
mod Actions
mod Closing
mod Lobbies
mod Unordered
mod Services
mod Sockets
