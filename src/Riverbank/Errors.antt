-- ===== src/Riverbank/Errors.antt =====
-- internal/shared/errors/errors.go: the errors that a handler answers with. The error that is wrapped,
-- and the details, are not part of an answer and are left out.
use capyclaw.Prelude.{ℕ, String, String_eq, ◌==◌, Map, if◌then◌else◌}

pub record AppError : Type 0 where
  pub code : String
  pub message : String

abbrev pub not_found : AppError
not_found = record { code = "not_found"; message = "resource not found" }

abbrev pub bad_request : AppError
bad_request = record { code = "bad_request"; message = "invalid request" }

abbrev pub internal : AppError
internal = record { code = "internal"; message = "internal server error" }

abbrev pub with_message : AppError → String → AppError
with_message e message = record e { message = message }

unfoldable pub http_status : AppError → ℕ
http_status e =
    if e.code == "not_found"
    then 404
    else if e.code == "unauthorized"
    then 401
    else if e.code == "forbidden"
    then 403
    else if e.code == "rate_limited"
    then 429
    else if e.code == "conflict"
    then 409
    else if e.code == "bad_request"
    then 400
    else 500

-- an answer: its status, and the fields of the JSON object that is its body
pub data Reply : Type 0 where
  json : ℕ → Map String String → Reply
  failed : ℕ → AppError → Reply

unfoldable pub write_error : AppError → Reply
unfolding http_status
write_error e = Reply.failed (http_status e) e
