-- ===== src/Examples/Exports.antt =====
-- The theorem on cells of the CSV export, applied to a formula with a line break.
