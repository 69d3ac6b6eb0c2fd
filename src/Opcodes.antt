-- ===== src/Opcodes.antt =====
-- src/jit.c, "Opcodes": one function for each opcode, `jit_inc` for `buxn_jit_INC`, and their
-- dispatch.
pub mod Stack
pub mod Arith
pub mod Memory
pub mod Control
pub mod Fold
