-- ===== src/Api/Status.antt =====
-- internal/api/server.go: what the status says of a job that was accepted.
