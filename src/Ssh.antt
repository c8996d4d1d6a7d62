-- ===== src/Ssh.antt =====
-- The crate crates/tepegoz-ssh: the known_hosts file that it keeps, and the deployment of the agent over
-- an SSH session. Text is the list of its characters.
pub mod Chars
pub mod Shell
pub mod KnownHosts
pub mod Deploy
mod Tests
