-- ===== src/Memtable.antt =====
-- mousedb/src/memtable.hpp and memtable.cpp, below the varints: the store of key-value pairs, the list of
-- its entries, and the table of strings over that.
pub mod Memory
pub mod Compare
pub mod Pairs
pub mod KvStore
pub mod KvSkipList
pub mod Table
mod Examples
