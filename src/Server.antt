-- ===== src/Server.antt =====
-- src/server/server.c, the chat server: its state, what its functions do to the rooms, one
-- definition for each request, and the loop of a connection.
pub mod State
pub mod RoomOps
pub mod Requests
pub mod Leaving
pub mod Connection
pub mod Keeping
pub mod Rounds
pub mod Allocating
pub mod Joining
pub mod Outcome
pub mod System
pub mod Delivery
pub mod Faults
pub mod Creating
pub mod Start
pub mod Ending
pub mod Answering
pub mod Progress
pub mod Listening
