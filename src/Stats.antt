-- ===== src/Stats.antt =====
-- volga/streaming/runtime/master/stats: histograms, and the statistics of workers and of the job.
pub mod Hist
pub mod Worker
pub mod Job
mod Tests
