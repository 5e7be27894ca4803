-- ===== src/Deploy.antt =====
-- internal/deploy: the pull runner's archives, projects and jobs.
pub mod Names
pub mod Project
pub mod Extract
pub mod Manifest
pub mod Daemon
