-- ===== src/Tests/OriginRuns.antt =====
-- Runs of the lookup key of an origin.
