-- ===== src/Micro.antt =====
-- src/jit.c, "Micro ops": what the opcodes are made of.
pub mod Stack
pub mod Memory
