-- ===== src/Library.antt =====
-- The libraries that the hypervisor and its guests are built with (library/util, library/uc and
-- library/mem).
pub mod Bitset
pub mod Bytes
pub mod Print
pub mod Words
pub mod LinkedList
pub mod ObjectList
pub mod Pool
pub mod Slab
pub mod Heap
pub mod Buddy
pub mod Regions
