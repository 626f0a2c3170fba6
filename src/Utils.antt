-- ===== src/Utils.antt =====
-- What include/utils defines on its own.
mod Logn
mod Tests
