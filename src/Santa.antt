-- ===== src/Santa.antt =====
-- zentral/contrib/santa: the synchronisation of the Santa agents' rules.
pub mod Policy
pub mod Configurations
pub mod Rules
pub mod Targets
pub mod Changes
pub mod Machines
pub mod Sync
pub mod RuleUpdates
pub mod Forms
pub mod RuleSets
pub mod Enrollments
pub mod Uploads
mod Examples
mod RuleExamples
mod SyncExamples
pub mod Logs
mod LogExamples
