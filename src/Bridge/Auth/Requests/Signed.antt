-- ===== src/Bridge/Auth/Requests/Signed.antt =====
-- A request with the headers of `signedHeaders` is accepted.
