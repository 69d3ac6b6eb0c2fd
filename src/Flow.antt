-- ===== src/Flow.antt =====
-- What the functions of src/jit.c do to the place in the block, to the memory image and to the JIT.
pub mod Keeps
pub mod Steady
pub mod Caches
pub mod Sweeps
pub mod Micro
pub mod Opcodes
pub mod Progress
pub mod Forward
pub mod Dispatch
pub mod Total
pub mod Agree
pub mod Fuel
