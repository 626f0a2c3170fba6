-- ===== src/File.antt =====
-- Files on disk: FSFile of include/storage/FSFile.h and src/storage/FSFile.cpp.
mod System
mod Calls
mod Sizes
mod Stale
mod Tests
