-- ===== src/Rest/Middleware/Laws.antt =====
-- Every request is answered and logged under its id, in the middleware of api/rest.
use eventmind.Base.{
  ℕ, ◌≤◌, ◌≡◌, refl, Text, bytes, is_empty, false, [], ◌∷◌, ◌++◌, List, Option, none, ◌↔◌, arith,
}
use eventmind.Rest.Handlers.{Response, respond, status_internal, error_body}
use eventmind.Rest.Middleware.{
  Request, LogLevel, error, LogLine, request_line, panic_line, log_level, request_id, recover,
  log_request, serve,
}

error_iff : (status : ℕ) → (log_level status ≡ error) ↔ (500 ≤ status)
unfolding log_level
error_iff status = ground arith

-- What is logged of a request: whatever its handler has left, one line with its id and the status
-- of the answer, at the level of an error exactly from status 500 on.
pub record IsLogged (req : Request) (r : Response) (id : Text) (lines : List LogLine) : Type 0 where
  pub before : List LogLine
  pub level : LogLevel
  pub last : lines ≡ before ++ request_line level req.method req.path r.status req.client_ip id ∷ []
  pub is_error : (level ≡ error) ↔ (500 ≤ r.status)

pub serve-IsLogged :
    (req : Request) (fresh : Text) (outcome : Option Response)
    → let ((r, id), lines) = serve req fresh outcome in IsLogged req r id lines
unfolding serve log_request
serve-IsLogged req fresh outcome = record {
  before = (recover req.path outcome).1;
  level = log_level (recover req.path outcome).0.status;
  last = refl;
  is_error = error_iff (recover req.path outcome).0.status;
}

-- A panic is answered with status 500, and logged before the request at the level of an error.
serve-panic :
    (req : Request) (fresh : Text)
    → let ((r, id), lines) = serve req fresh none in
      (r ≡ respond status_internal (error_body (bytes "internal server error")))
      × (lines
          ≡ panic_line req.path
            ∷ request_line error req.method req.path status_internal req.client_ip id
            ∷ [])
unfolding serve log_request recover log_level
serve-panic req fresh = (refl, refl)

-- Each answer has an id.
request_id_full :
    (header fresh : Text) → is_empty fresh ≡ false → is_empty (request_id header fresh) ≡ false
unfolding request_id
request_id_full [] fresh h = h
request_id_full (c ∷ header) fresh h = refl
