-- ===== src/Python.antt =====
-- What the program uses of Python itself: dynamic values, dicts, exceptions and awaits.
pub mod Value
pub mod Exec
pub mod Text
pub mod Environ
