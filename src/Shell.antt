-- ===== src/Shell.antt =====
-- The shell of 4-soc/csrc/shell.c: the byte routines of its runtime, its printers and parsers of
-- numbers, its line editor, its commands and its loop.
pub mod Runtime
pub mod Numbers
pub mod Buffer
pub mod Editor
pub mod Args
pub mod Command
pub mod Main
