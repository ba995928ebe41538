-- ===== src/Api/Tests.antt =====
-- The theorems on the routes at concrete requests, with a token package that accepts no token.
use system_design_lab.Prelude.{
  ℕ, String, true, false, none, some, List, [], ◌∷◌, ◌≡◌, refl, sym, ◌⊎◌, arith,
}
use system_design_lab.Gin.{Ctx, next}
use system_design_lab.Prelude.Assoc.{get}
use system_design_lab.Prelude.Texts.{strip_prefix}
use system_design_lab.Middleware.Jwt.{JwtLibrary, require_auth, extract_token}
use system_design_lab.Middleware.Audit.{AuditRow, responded, audit_row, build_action}
use system_design_lab.Api.{
  require_auth_guard, require_admin_guard, auth_delete_me, admin_list_users, Handler, Route, Server,
  run_chain, serve,
}
use system_design_lab.Middleware.Logging.{LogRequest}
use system_design_lab.Api.Headers.{IsPolite}
use system_design_lab.Api.Protection.{anonymous_write, admin_only_admins}

never_failed : (token secret : String) → true ≡ false → false ≡ true
never_failed token secret h = sym h

abbrev no_token : JwtLibrary
no_token = record {
  parse = λ token secret. record { failed = true; valid = false; claims = none };
  valid_of_parse = never_failed;
}

abbrev handle_all : Handler → Ctx → List AuditRow → ℕ × Ctx × List AuditRow
handle_all h c w = (200, c, w)

abbrev server : Server (List AuditRow)
server = record {
  jwt = no_token;
  secret = "s";
  limit_login = λ c w. (next c, w);
  limit_stream = λ c w. (next c, w);
  handle = handle_all;
  record_row = λ row w. row ∷ w;
}

abbrev delete_me : Route
delete_me = record {
  method = "DELETE";
  path = "/v1/me";
  guards = require_auth_guard ∷ [];
  handler = auth_delete_me;
}

abbrev list_users : Route
list_users = record {
  method = "GET";
  path = "/v1/admin/users";
  guards = require_auth_guard ∷ require_admin_guard ∷ [];
  handler = admin_list_users;
}

abbrev request : Route → Ctx
request r = record {
  method = r.method;
  full_path = r.path;
  request_headers = [];
  cookies = [];
  params = [];
  client_ip = "10.0.0.1";
  user_agent = "";
  keys = [];
  headers = [];
}

anonymous_write_example :
    (action : String) × (build_action "DELETE" "/v1/me" ≡ some action)
    × (serve server delete_me (request delete_me) []
        ≡ responded 401 (request delete_me) (audit_row (request delete_me) 401 action ∷ []))
anonymous_write_example =
    anonymous_write server 3 delete_me (request delete_me) [] refl refl refl refl refl
      (λ claims a. ground (arith, a.parsed))

admin_only_admins_example :
    (status : ℕ) × (c' : Ctx) × (run_chain server list_users.guards list_users.handler
        (request list_users)
        []
      ≡ (status, c', []))
    × ((status ≡ 401) ⊎ (status ≡ 403))
admin_only_admins_example =
    admin_only_admins server 5 list_users (request list_users) [] refl refl
      (λ claims a. absurd (ground (arith, a.parsed)))

path_kept :
    (run_chain server delete_me.guards delete_me.handler (request delete_me) []).1.full_path
    ≡ "/v1/me"
unfolding run_chain require_auth extract_token strip_prefix get
path_kept = refl

server-IsPolite : IsPolite server
server-IsPolite = record {
  handles = λ h c w name e. refl;
  limits_login = λ c w name e. refl;
  limits_stream = λ c w name e. refl;
}

abbrev log_request : LogRequest
log_request = record {
  path = "/v1/me";
  query = "";
  latency = 0;
  latency_ms = 0;
  errors = "";
  span = none;
}
