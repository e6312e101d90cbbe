-- ===== src/Go.antt =====
-- The parts of Go's language and standard library that the program leans on.
pub mod Result
pub mod Strings
pub mod Regexp
pub mod Bufio
pub mod Maps
pub mod Sort
pub mod Path
pub mod Strconv
pub mod Time
pub mod Encoding
