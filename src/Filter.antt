-- ===== src/Filter.antt =====
-- mousedb/src/filter.hpp and filter.cpp: the set filters, and what they take from the C++ library.
pub mod Run
pub mod Hasher
pub mod Slots
pub mod Stream
pub mod Samples
pub mod Bitset
pub mod Bloom
pub mod Cuckoo
pub mod Chained
