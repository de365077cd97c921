-- ===== src/Js.antt =====
-- What the program uses of JavaScript itself: numbers, values, objects, thrown errors, and the
-- conversions that the engine implements, which are the parameter `Engine`.
pub mod Number
pub mod Value
pub mod Object
pub mod Trim
pub mod Convert
