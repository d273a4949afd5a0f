-- ===== src/Rust.antt =====
-- The parts of the Rust standard library that the program runs: texts, their UTF-8 form and hash
-- maps. A `String` is the list of its characters, each given by its code point.
pub mod Utf8
pub mod Text
pub mod HashMap
