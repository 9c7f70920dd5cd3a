-- ===== src/Crawl.antt =====
-- internal/crawl: crawler.go, the crawl of one target.
pub mod Frontier
pub mod Delay
pub mod Target
pub mod Visit
pub mod RobotsFile
