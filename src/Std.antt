-- ===== src/Std.antt =====
-- What the program uses of Rust's standard library.
pub mod BTreeMap
pub mod StringOrd
pub mod HashMap
pub mod HashSet
pub mod Text
