-- ===== src/Limiter.antt =====
-- proxy/limiter.go: requests and tokens per minute in a sliding window, the admission check of a
-- virtual key, and the guard that serialises a user's generations. Redis is outside the code.
pub mod Sliding
pub mod Admission
pub mod Generation
