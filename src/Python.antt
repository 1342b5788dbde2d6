-- ===== src/Python.antt =====
-- What the program uses of Python itself: exceptions, methods that mutate and may raise, the
-- conversions between numbers and their decimal text, the environment and the paths of files.
pub mod Exec
pub mod Text
pub mod Number
pub mod Gives
pub mod Outcome
pub mod Environ
pub mod Words
pub mod Pathlib
pub mod Stripped
