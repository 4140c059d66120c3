-- ===== src/SecureTerminal.antt =====
-- src/client/clientsec-cli.c, the program of the secure client: one round of each of its three
-- threads. What it prints is left out, but for the texts of users.
pub mod Sending
pub mod Receiving
pub mod Showing
