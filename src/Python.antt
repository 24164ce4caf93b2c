-- ===== src/Python.antt =====
-- What the tools use of Python itself: regular expressions, `str` methods, `int`, and JSON values.
pub mod Interpreter
pub mod Regex
pub mod Text
pub mod Number
pub mod Json
pub mod Sorted
