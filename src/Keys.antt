-- ===== src/Keys.antt =====
-- Orders on the keys of std::map and of std::sort, and ordered maps.
pub mod Order
pub mod SortedMap
pub mod Sort
