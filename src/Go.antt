-- ===== src/Go.antt =====
-- What the program uses of Go itself: int64 arithmetic, time instants, decimal conversions.
pub mod Int64
pub mod Time
pub mod Strconv
