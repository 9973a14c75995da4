-- ===== src/Common.antt =====
-- packages/colab_common: what every service uses.
pub mod RateLimit
mod Tests
