-- ===== src/Runtime.antt =====
-- The header-only runtime that emitted programs link against, runtime/cythonpp/.
pub mod Fail
pub mod Int
