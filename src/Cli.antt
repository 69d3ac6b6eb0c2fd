-- ===== src/Cli.antt =====
-- src/cli.c: the command line program that runs a ROM.
pub mod SymFile
pub mod Console
pub mod Rom
pub mod Boot
pub mod Devices
