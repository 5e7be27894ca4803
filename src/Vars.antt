-- ===== src/Vars.antt =====
-- internal/vars/vars.go and internal/vars/context.go: how the variables of a host are put together.
pub mod Merge
pub mod Resolve
