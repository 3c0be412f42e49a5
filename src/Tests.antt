-- ===== src/Tests.antt =====
-- Tests of the definitions, and the theorems at concrete inputs.
mod Text
mod Modes
mod Replies
mod Server
mod Reader
mod Handling
