-- ===== src/ToolsStd.antt =====
-- crates/tools-std/src: what its tools decide without reading a file or starting a process.
pub mod Hunk
pub mod Glob
pub mod Condense
