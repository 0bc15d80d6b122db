-- ===== src/Rest/Middleware.antt =====
-- api/rest/middleware.go: the chain of handlers around every request, in the order of
-- cmd/api/main.go: `RequestID`, `RequestLogger`, `Recovery`, and the handler of the route.
pub mod Laws
use eventmind.Base.{
  ℕ, Text, bytes, leb, is_empty, List, [], ◌∷◌, ◌++◌, Option, none, some, if◌then◌else◌,
}
use eventmind.Rest.Handlers.{Response, respond, status_internal, error_body}

-- What the chain reads of a request; the header is `X-Request-ID`.
pub record Request : Type 0 where
  pub method : Text
  pub path : Text
  pub header : Text
  pub client_ip : Text

-- `RequestID`: the incoming header, or a fresh identifier if there is none.
unfoldable pub request_id : Text → Text → Text
request_id header fresh = if is_empty header then fresh else header

pub data LogLevel : Type 0 where
  info warn error : LogLevel

-- The lines of `RequestLogger` and `Recovery`, without the latency and the value of the panic.
pub data LogLine : Type 0 where
  request_line : LogLevel → Text → Text → ℕ → Text → Text → LogLine
  panic_line : Text → LogLine

unfoldable pub log_level : ℕ → LogLevel
log_level status = if leb 500 status then error else if leb 400 status then warn else info

-- `Recovery`: `none` is a panic before the handler has answered.
unfoldable pub recover : Text → Option Response → Response × List LogLine
recover path (some r) = (r, [])
recover path none =
    (respond status_internal (error_body (bytes "internal server error")), panic_line path ∷ [])

-- `RequestLogger`, which writes its line after the rest of the chain.
unfoldable pub log_request : Request → Text → Response × List LogLine → Response × List LogLine
unfolding log_level
log_request req id (r, lines) = (
  r,
  lines ++ request_line (log_level r.status) req.method req.path r.status req.client_ip id ∷ [],
)

-- The whole chain: the answer with its `X-Request-ID` and the lines of the log.
unfoldable pub serve : Request → Text → Option Response → (Response × Text) × List LogLine
unfolding request_id recover log_request
serve req fresh outcome =
    let id = request_id req.header fresh in
    let (r, lines) = log_request req id (recover req.path outcome) in ((r, id), lines)
