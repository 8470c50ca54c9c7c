-- ===== src/Tools.antt =====
-- The tools of the repository that decide whether a commit or an environment is accepted.
pub mod Commits
pub mod EnvFile
pub mod Guards
pub mod Environment
pub mod Secrets
pub mod Urls
pub mod Smoke
