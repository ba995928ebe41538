-- ===== src/Worker.antt =====
-- The workers of beatstream/internal/worker and the consumer of beatstream/internal/queue/kafka.go
-- that runs them.
pub mod Queue
pub mod Upload
pub mod Analytics
pub mod Pipeline
pub mod Delivery
pub mod Rows
pub mod Formats
pub mod Indexing
pub mod Catalogue
pub mod Race
pub mod Offsets
pub mod Plays
mod Tests
