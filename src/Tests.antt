-- ===== src/Tests.antt =====
-- The theorems at concrete data, and runs of the models.
mod RunExamples
mod EvidenceExamples
mod SnapshotExamples
mod ScopeExamples
mod DuplicateExamples
mod ScanExamples
mod SessionExamples
mod AuthorityExamples
mod HashingExamples
