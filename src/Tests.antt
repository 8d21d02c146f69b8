-- ===== src/Tests.antt =====
-- Runs of the definitions on concrete inputs, and the theorems at concrete inputs.
pub mod Samples
pub mod DnsRuns
pub mod RuleRuns
pub mod ForwarderRuns
pub mod ProgramRuns
pub mod OrderRuns
pub mod ServiceRuns
pub mod CacheRuns
pub mod ServingRuns
pub mod StreamRuns
pub mod StatsRuns
