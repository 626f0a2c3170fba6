-- ===== src/Guard.antt =====
-- ResourceGuard: include/utils/ResourceGuard.h.
mod Cells
mod Ownership
mod Flagged
mod Program
mod Sentinel
mod Tests
