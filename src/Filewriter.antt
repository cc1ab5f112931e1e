-- ===== src/Filewriter.antt =====
-- internal/filewriter: from a model's answer to changed files.
pub mod Types
pub mod FilePath
pub mod Parser
pub mod PathSafe
pub mod Files
pub mod Glob
pub mod Gitignore
pub mod Writer
pub mod Apply
pub mod Executor
