-- ===== src/Refine.antt =====
-- src/jit.c, run on a machine: the stacks of the VM are the items held in registers on top of those
-- in memory, and the generated code keeps them so.
pub mod Below
pub mod Shape
pub mod Steady
pub mod Stash
pub mod Interpret
pub mod Run
pub mod Bytes
pub mod Ensures
pub mod Push
pub mod Item
pub mod Written
pub mod Cached
pub mod Spill
pub mod Holds
pub mod Inv
pub mod Clear
pub mod Alloc
pub mod Room
pub mod Cell
pub mod Pop
pub mod Operand
pub mod Reading
pub mod Fetch
pub mod Side
pub mod Take
pub mod Ready
pub mod Isa
pub mod Compute
pub mod Session
pub mod Draw
pub mod Widths
pub mod Moves
pub mod Increment
pub mod Shift
pub mod Arithmetic
pub mod Dropped
pub mod Lowered
pub mod Discard
pub mod Removals
pub mod Straight
pub mod Start
pub mod Next
