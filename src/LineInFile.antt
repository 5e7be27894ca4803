-- ===== src/LineInFile.antt =====
-- internal/modules/lineinfile/executor.go: one line of a file ensured or removed. Texts are lists of
-- bytes; `Text` has the splitting and joining, `Edit` the decisions on lines, `Execute` the whole operation on
-- the target.
pub mod Text
pub mod Edit
pub mod Execute
