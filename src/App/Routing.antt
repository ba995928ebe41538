-- ===== src/App/Routing.antt =====
-- From a request to the outcome of the server that beatstream/cmd/api/main.go builds.
use text.Mathlib.TextEquality.{eq_iff}
use system_design_lab.Prelude.{
  ℕ, zero, suc, String, Bool, true, none, some, List, [], ◌∷◌, get_elem?, ◌≡◌, sym, ap, ◌∙◌, inl,
  inr, ◌⊎◌, ◌==◌, ◌&&◌, text_eq, arith, if◌then◌else◌, Bool-cases, Option-cases,
}
use system_design_lab.Gin.{Ctx}
use system_design_lab.Middleware.Audit.{Outcome, responded, audit_row, build_action, is_read}
use system_design_lab.Api.{Guard, Handler, Route, routes, run_chain, serve}
use system_design_lab.Api.Stack.{find_route, respond, is_health, ready_status}
use system_design_lab.Api.Protection.{IsRoute, audited}
use system_design_lab.App.{Site, Input, State, server, set_db, insert_log}
use system_design_lab.App.Serving.{Follows, Ends, stopped, handled, Passes-Follows, run_chain-Ends}

-- The router finds a row of the table with the request's method and path.
find_route_lem :
    (method path : String) (rs : List Route) {r : Route}
    → find_route method path rs ≡ some r
    → (k : ℕ) × (get_elem? rs k ≡ some r) × (r.method ≡ method) × (r.path ≡ path)
unfolding find_route
find_route_lem method path [] e = cc
find_route_lem method path (x ∷ rs) {r = r} e =
    elim (Bool-cases (x.method == method && x.path == path)) [
      | inl here ↦
          let same : x ≡ r = ground (arith, e, here) in
          (
            zero,
            ap some same,
            ap (λ r. r.method) (sym same) ∙ (eq_iff x.method method).0 (ground (arith, here)),
            ap (λ r. r.path) (sym same) ∙ (eq_iff x.path path).0 (ground (arith, here)),
          )
      | inr there ↦
          let (k, at, m, p) = find_route_lem method path rs (ground (arith, e, there)) in
          (suc k, at, m, p)
    ]

module _ {F : Type 0} (site : Site F) (i : Input) where
  Ends-Follows :
      {gs : List Guard} {h : Handler} {c : Ctx} {w : State site} {o : ℕ × Ctx × State site}
      → Ends site i gs h c w o
      → Follows c o.1
  Ends-Follows (stopped status c' w' follows kept) = follows
  Ends-Follows (handled c' w' passes) = Passes-Follows site i passes

  -- The request matches a row of the route table.
  pub record Matches (r : Route) (c : Ctx) : Type 0 where
    pub index : ℕ
    pub row : IsRoute index r
    pub method : r.method ≡ c.method
    pub path : r.path ≡ c.full_path

  abbrev pub logged : Route → String → ℕ × Ctx × State site → State site
  logged r action (status, c', w') =
      if is_read r.method
      then w'
      else set_db site w'
          (insert_log i.audit_fails i.env.cast (audit_row c' status action) w'.uploads.db)

  -- A reading request, or one that no route matches.
  abbrev pub IsQuiet : Ctx → Type 0
  IsQuiet c = (is_read c.method ≡ true) ⊎ (find_route c.method c.full_path routes ≡ none)

  -- A request is answered without a change of the state, or by the chain of its route and the log.
  pub data Answered (c : Ctx) (w : State site) : Outcome (State site) → Type 0 where
    untouched : (status : ℕ) → IsQuiet c → Answered c w (responded status c w)
    routed :
        (r : Route) (action : String) (status : ℕ) (c' : Ctx) (w' : State site)
        → Matches r c
        → build_action r.method r.path ≡ some action
        → Ends site i r.guards r.handler c w (status, c', w')
        → Answered c w (responded status c' (logged r action (status, c', w')))

  serve-Answered :
      (r : Route) (c : Ctx) (w : State site)
      → Matches r c
      → Answered c w (serve (server site i) r c w)
  unfolding server
  serve-Answered r c w m =
      let ends = run_chain-Ends site i r.guards r.handler c w in
      let follows = Ends-Follows ends in
      let (action, named, e) =
        audited (server site i) m.index r c w m.row (sym m.method)
          (follows.full_path ∙ sym m.path) in
      let (status, c', w') = run_chain (server site i) r.guards r.handler c w in
      rw e (routed r action status c' w' m named ends)

  pub respond-Answered :
      (ping_fails : Bool) (c : Ctx) (w : State site)
      → Answered c w (respond (server site i) ping_fails c w)
  unfolding respond
  respond-Answered ping_fails c w = elim (Bool-cases (is_health c)) [
    | inl health ↦ rw (health, respond) (untouched 200 (inl (ground (arith, health))))
    | inr other ↦ elim (Bool-cases (c.method == "GET" && c.full_path == "/ready")) [
      | inl ready ↦
          rw (other, respond, ready)
            (untouched (ready_status ping_fails) (inl (ground (arith, ready))))
      | inr matched ↦ elim (Option-cases (find_route c.method c.full_path routes)) [
        | inl nothing ↦ rw (other, respond, matched, nothing) (untouched 404 (inr nothing))
        | inr (r, e) ↦
            let (k, row, m, p) = find_route_lem c.method c.full_path routes e in
            rw (other, respond, matched, e)
              (serve-Answered r c w (record { index = k; row = row; method = m; path = p }))
      ]
    ]
  ]
