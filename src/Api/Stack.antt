-- ===== src/Api/Stack.antt =====
-- What beatstream/cmd/api/main.go puts around all routes: the middleware of `r.Use` in its order, the
-- health endpoints, and gin's recovery from a panic. The tracing middleware only adds a span.
use system_design_lab.Prelude.{
  ℕ, String, Bool, true, false, Option, none, some, List, [], ◌∷◌, ◌==◌, ◌&&◌, ◌||◌, text_eq,
  if◌then◌else◌,
}
use system_design_lab.Gin.{Ctx}
use system_design_lab.Middleware.Stamps.{request_id, Labels, request_labels}
use system_design_lab.Middleware.Cors.{security_headers}
use system_design_lab.Middleware.Access.{left}
use system_design_lab.Middleware.Logging.{LogRequest, LogLine, log_line}
use system_design_lab.Middleware.Audit.{Outcome, responded, panicked}
use system_design_lab.Api.{Route, routes, Server, serve}

-- The route of a method and of the path that gin's router has matched.
unfoldable pub find_route : String → String → List Route → Option Route
find_route method path [] = none
find_route method path (r ∷ rs) =
    let rest = find_route method path rs in
    if r.method == method && r.path == path then some r else rest

-- `ping_fails` says that the database does not answer.
abbrev pub ready_status : Bool → ℕ
ready_status ping_fails = if ping_fails then 503 else 200

abbrev pub is_health : Ctx → Bool
is_health c = c.method == "GET" && (c.full_path == "/healthz" || c.full_path == "/health")

-- What answers a request that gin's router does not redirect: an endpoint, a route, or gin's 404.
unfoldable pub respond : {W : Type 0} → Server W → Bool → Ctx → W → Outcome W
unfolding find_route serve
respond server ping_fails c w =
    if is_health c
    then responded 200 c w
    else if c.method == "GET" && c.full_path == "/ready"
    then responded (ready_status ping_fails) c w
    else elim (find_route c.method c.full_path routes) [
      | none ↦ responded 404 c w
      | some r ↦ serve server r c w
    ]

-- What the client gets and what is left behind: a response with its log line and its labels; or what
-- gin makes of a panic, of a handler or of the logger, with the context that the response has by then;
-- or gin's redirection of a path that is a route only with, or only without, a slash at its end, which
-- `gin.New()` leaves on and which runs no middleware.
pub data Final (W : Type 0) : Type 0 where
  sent : ℕ → Ctx → LogLine → Labels → W → Final W
  recovered : Ctx → Final W
  redirected : ℕ → Ctx → Final W

-- 301 for GET and 307 for other methods.
abbrev pub slash_status : String → ℕ
slash_status method = if method == "GET" then 301 else 307

-- `slash` says that gin's router redirects the request, `uuid` is the new request id and `origins` the
-- variable ALLOWED_ORIGINS.
unfoldable pub stack :
    {W : Type 0} → Server W → Bool → Bool → String → String → LogRequest → Ctx → W → Final W
unfolding respond request_id security_headers log_line request_labels
stack server ping_fails true uuid origins r c w = redirected (slash_status c.method) c
stack server ping_fails false uuid origins r c w =
    let stamped = left (security_headers origins (left (request_id uuid c))) in
    elim (respond server ping_fails stamped w) [
      | panicked ↦ recovered stamped
      | responded status c' w' ↦ elim (log_line r c' status) [
        | none ↦ recovered c'
        | some line ↦ sent status c' line (request_labels c' status) w'
      ]
    ]
