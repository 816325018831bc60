-- ===== src/Operations/Lookup.antt =====
-- operations.go: what Lookup answers.
