-- ===== src/Cache.antt =====
-- src/jit.c, "Stack cache": the topmost stack items, held in registers. What leaves the cache at the
-- bottom is written to the VM's stack; a pop from an empty cache reads that stack.
pub mod Spill
pub mod Pop
pub mod Sweep
