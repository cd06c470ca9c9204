-- ===== src/Cli.antt =====
-- pqkms/app/cli: the commands on a key store. A command's result is its exit code.
pub mod Rekey
