-- ===== src/Store/Guarantees/Finish.antt =====
-- When `finish` records an outcome: exactly where the status diagram has an edge.
