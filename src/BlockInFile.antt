-- ===== src/BlockInFile.antt =====
-- internal/modules/blockinfile/executor.go: a block of lines between two markers ensured or removed.
-- `Lines` has the edit of the lines, `Execute` the whole operation over a record of what is done to the
-- target, and `Target` that record over the calls of the operating system.
pub mod Lines
pub mod Execute
pub mod Target
