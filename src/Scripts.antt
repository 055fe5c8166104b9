-- ===== src/Scripts.antt =====
-- scripts/: the helpers of the delivery pipeline.
pub mod Digests
mod DigestTests
pub mod Scorecard
mod ScorecardTests
pub mod Manifests
mod ManifestTests
pub mod Traffic
mod TrafficTests
pub mod Summary
mod SummaryTests
