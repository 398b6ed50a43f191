-- ===== src/Tls.antt =====
-- The certificates: what is under src/tls.
pub mod Der
