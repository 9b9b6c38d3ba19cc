-- ===== src/Batcher/Conserving.antt =====
-- What becomes of the changes that are given to ChangeBatcher (internal/service/change_batcher.go).
