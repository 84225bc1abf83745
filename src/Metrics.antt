-- ===== src/Metrics.antt =====
-- omr_metrics.py, the metrics of the routers' links: the store of the latest measurements, and the
-- online learning of the decision engine, that is its settings, its toggle and its watchdog.
pub mod Floats
pub mod Json
pub mod Settings
pub mod Learning
pub mod Toggle
pub mod Ranges
pub mod Sane
pub mod Reach
pub mod Saying
pub mod Settling
pub mod Lasting
pub mod Watchdog
pub mod Streaks
pub mod Store
pub mod Written
pub mod Stored
