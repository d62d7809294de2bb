-- ===== src/RateLimit.antt =====
-- internal/middleware/ratelimit.go: the sliding window of requests for each client address.
pub mod Window
pub mod Keys
pub mod Answers
pub mod Bound
mod Examples
