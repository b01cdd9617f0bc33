-- ===== src/Migrations.antt =====
-- repo/fsrepo/migrations: the migrations of a repository between its versions.
pub mod Repo
pub mod Embedded
pub mod Backup
pub mod Plan
pub mod Hybrid
pub mod Reach
pub mod Target
pub mod Success
pub mod Outcome
pub mod Works
pub mod Tree
pub mod ProvideSection
pub mod AutoConf
pub mod Converted
pub mod Bootstrapped
mod ConvertedExamples
mod Examples
