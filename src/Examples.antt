-- ===== src/Examples.antt =====
-- Inputs to try the definitions on: thousandths for float64, and a pool of two proxies.
pub mod Numbers
pub mod Pools
pub mod Clients
pub mod Browsers
pub mod Fetches
pub mod Jobs
pub mod Sites
pub mod Caches
pub mod Visits
pub mod Pages
