-- ===== src/Http.antt =====
-- How a handler in a chain ends: it hands the request on, or it replies itself (`http.Error`, or a
-- `WriteHeader` with a JSON error body).
use cargobay.Prelude.{ℕ, String}

pub data Verdict : Type 0 where
  next : Verdict
  reply : ℕ → String → Verdict

abbrev pub status_unauthorized : ℕ
status_unauthorized = 401

abbrev pub status_forbidden : ℕ
status_forbidden = 403

abbrev pub status_too_large : ℕ
status_too_large = 413

abbrev pub status_too_many_requests : ℕ
status_too_many_requests = 429

abbrev pub status_ok : ℕ
status_ok = 200

abbrev pub status_created : ℕ
status_created = 201

abbrev pub status_accepted : ℕ
status_accepted = 202

abbrev pub status_bad_request : ℕ
status_bad_request = 400

abbrev pub status_not_found : ℕ
status_not_found = 404

abbrev pub status_internal_error : ℕ
status_internal_error = 500

abbrev pub status_bad_gateway : ℕ
status_bad_gateway = 502
