-- ===== src/Datum.antt =====
-- Datum, DatumRef and NullableDatumRef: include/base/datum.h.
pub mod Cells
pub mod Program
mod Counts
mod Ownership
mod References
mod Tests
