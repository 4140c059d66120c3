-- ===== src/SecureServer.antt =====
-- src/serversec/secure_server.c: the server of the secure rooms. SQLite is the parameter of
-- `Accounts`, and the keys of `gen_keys` come from OpenSSL, so they are an argument. The tables of
-- users and rooms are those of the chat server.
pub mod State
pub mod RoomOps
pub mod Requests
pub mod Invitations
pub mod Access
pub mod Rounds
pub mod Marking
pub mod Guarded
pub mod Protecting
pub mod Sharing
pub mod Leaving
pub mod Joining
pub mod Entering
pub mod Keeping
pub mod Inviting
pub mod Serving
pub mod Staying
pub mod Outcome
pub mod System
pub mod Start
pub mod Accepting
pub mod Drawing
pub mod Listening
pub mod Anonymous
