-- ===== src/Js.antt =====
-- The parts of JavaScript that the modelled files use: strings as lists of UTF-16 code units,
-- numbers, JSON values, the regular expressions of the source, and the host functions whose code
-- is not in the repository.
pub mod Text
pub mod Number
pub mod Json
pub mod Pattern
pub mod Host
pub mod Objects
