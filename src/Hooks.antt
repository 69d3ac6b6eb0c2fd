-- ===== src/Hooks.antt =====
-- The tools that watch the JIT through its hooks: names for addresses, symbols, the record of
-- addresses of a block, the composition of hooks, what is written for perf and handed to gdb.
pub mod LabelMap
pub mod Symbols
pub mod Mappings
pub mod Composite
pub mod Perf
pub mod Gdb
pub mod Reader
