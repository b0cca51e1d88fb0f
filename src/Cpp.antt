-- ===== src/Cpp.antt =====
-- The parts of the C++ language and its standard library that the program uses.
pub mod Result
pub mod Numbers
pub mod Effect
pub mod Files
pub mod Stream
pub mod Find
pub mod Dialog
