-- ===== src/Tools/Parallel/Batch/Counts.antt =====
-- How many variations `run_variation_batch` answers, and how it counts them.
