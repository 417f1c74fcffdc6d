-- ===== src/Initiator.antt =====
-- client/initiator: the program that joins a front end with the back end that it starts for it.
pub mod Session
pub mod Manager
pub mod Handlers
pub mod Joining
pub mod Token
mod Tests
