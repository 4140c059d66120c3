-- ===== src/Client.antt =====
-- src/client/libclient.c, the client's library: the words of a command line, the command that they
-- name, and the messages that the client writes.
pub mod Words
pub mod Commands
pub mod Typed
pub mod RoomCommands
pub mod Connecting
