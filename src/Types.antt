-- ===== src/Types.antt =====
-- The built-in types' functions: src/utils/typsupp.
mod Call
mod Signed
mod Integer
mod Files
mod Padding
mod Text
mod Boolean
mod Outcomes
mod Undo
mod Tests
