-- ===== src/Catalogue.antt =====
-- The catalogue of canonical entities: src/apps/index/services/resolution.py, and the services that
-- decide on match candidates.
pub mod Model
pub mod Redirects
pub mod Merge
pub mod WellFormed
pub mod Decide
pub mod Proposals
pub mod Matching
pub mod Batch
pub mod CrossProvider
mod Samples
mod Tests
