-- ===== src/SecureClient.antt =====
-- src/client/libclientsec.c, the library of the secure client: the messages that it encrypts, the
-- commands that it sends to the secure server and to the chat server, and the keys that it keeps.
-- OpenSSL is a parameter.
pub mod Cipher
pub mod State
pub mod RoomCommands
pub mod Texts
pub mod Commands
pub mod Receiving
pub mod Packet
pub mod Conversation
pub mod Keyring
pub mod Typed
pub mod Integrity
