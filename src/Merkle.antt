-- ===== src/Merkle.antt =====
-- The Merkle tree objects of zentral/utils/mt_models.py.
pub mod Sorting
pub mod Results
pub mod Hasher
pub mod Trees
pub mod Objects
pub mod Commits
pub mod Examples
