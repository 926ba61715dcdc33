-- ===== src/Libc.antt =====
-- What the program uses of the C standard library, over C strings as lists of bytes without NUL.
pub mod Strings
pub mod Numbers
pub mod Printf
pub mod Decimal
pub mod Files
