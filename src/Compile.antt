-- ===== src/Compile.antt =====
-- src/jit.c: from a request for an address to code: compiling what is asked for, linking the jumps
-- and freeing the compilers.
pub mod Prologue
pub mod Block
pub mod Queues
pub mod Rounds
pub mod Installed
pub mod Settled
pub mod Linking
pub mod Translate
pub mod Patched
pub mod Execute
