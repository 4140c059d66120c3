-- ===== src/Tests.antt =====
-- Runs of the server on small inputs.
mod Program
mod Start
mod Tables
mod Hashes
mod Clubs
mod Rounds
mod Typing
mod AccountRuns
mod SecureRuns
mod SecureTexts
mod SecureTyping
mod SecureThreads
mod Talking
