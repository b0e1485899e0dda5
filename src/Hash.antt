-- ===== src/Hash.antt =====
-- The two hash containers of util/hash and their iterators.
pub mod Chain
pub mod Buckets
pub mod HashMap
pub mod HashTable
pub mod Iter
