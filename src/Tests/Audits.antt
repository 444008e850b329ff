-- ===== src/Tests/Audits.antt =====
-- What a run of Stop logs.
