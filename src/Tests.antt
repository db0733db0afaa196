-- ===== src/Tests.antt =====
-- Concrete data: a semantic-version library over numbers, insertion sort for `sort.Slice`, a small
-- configuration with its folders; and the theorems at these.
mod Fixtures
mod Plan
mod PlanWitnesses
mod ConfigWitnesses
mod BuilderWitnesses
mod ScanWitnesses
mod ProcessWitnesses
mod UpdateWitnesses
mod ServerWitnesses
