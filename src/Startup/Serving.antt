-- ===== src/Startup/Serving.antt =====
-- The end of beatstream/cmd/api/main.go: the two servers, until a signal or an error of the first.
use system_design_lab.Prelude.{ℕ, String, Bool, Option, none, some, List, [], ◌∷◌, if◌then◌else◌}
use system_design_lab.Prelude.Texts.{◌<>◌}
use system_design_lab.Startup.Api.{Deps}

-- `Addr` of the server of the API and of the server of the metrics.
abbrev pub address : {F : Type 0} → Deps F → String
address d = ":" <> d.port

abbrev pub metrics_address : {F : Type 0} → Deps F → String
metrics_address d = ":" <> d.metrics_port

-- What happens to the process: a server's `ListenAndServe` returns, with `http.ErrServerClosed` or
-- another error, or a signal comes.
pub data Happening : Type 0 where
  server_returns metrics_server_returns : Bool → Happening
  signal : Happening

-- How the process ends: by `log.Fatal`, or after both servers are shut down with this many seconds to
-- finish their requests; none while it runs.
pub data End : Type 0 where
  fatal : End
  shut_down : ℕ → End

-- The lines of the log from here on, and the end.
unfoldable pub run_until : List Happening → List String × Option End
run_until [] = ([], none)
run_until (server_returns closed ∷ hs) =
    let rest = run_until hs in if closed then rest else ("server" ∷ [], some fatal)
run_until (metrics_server_returns closed ∷ hs) =
    let (lines, end) = run_until hs in
    if closed then (lines, end) else ("metrics server stopped" ∷ lines, end)
run_until (signal ∷ hs) =
    ("shutting down gracefully..." ∷ "shutdown complete" ∷ [], some (shut_down 10))

unfoldable pub serve_until : List Happening → List String × Option End
unfolding run_until
serve_until hs =
    let (lines, end) = run_until hs in
    ("beatstream API started" ∷ "metrics server started" ∷ lines, end)
