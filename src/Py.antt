-- ===== src/Py.antt =====
-- What the scripts use of Python: errors as values, `str` methods, `int()`, `csv.DictReader`, and
-- the interface of `float`.
pub mod Result
pub mod Text
pub mod Number
pub mod Table
pub mod Float
pub mod File
pub mod Regex
