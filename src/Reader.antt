-- ===== src/Reader.antt =====
-- The reader of initial data, InitDataFileReader of include/catalog/InitDataFileReader.h and
-- src/catalog/InitDataFileReader.cpp.
pub mod Tokens
mod Escapes
mod Quotes
pub mod State
pub mod Next
mod Progress
mod Termination
mod Ends
mod Layouts
mod Fields
mod ReadBack
mod Tests
