-- ===== src/Middleware/Audit.antt =====
-- beatstream/internal/middleware/audit.go: the row that a mutating request leaves in audit_logs.
use mathlib.Core.Option
use system_design_lab.Prelude.{
  ℕ, String, Bool, Option, none, some, List, length, get_or, ◌==◌, ◌&&◌, ◌||◌, text_eq, eqb, leb,
  if◌then◌else◌,
}
use system_design_lab.Prelude.Texts.{
  ◌<>◌, has_prefix, trim_prefix, split, join, to_lower, drop_last,
}
use system_design_lab.Gin.{Ctx, get_key, as_string, param}

-- A part of the path, which the code reads only after a test of the number of parts.
abbrev part : List String → ℕ → String
part parts i = get_or parts i ""

-- parts[0] without its last byte and with a suffix; `none` is the panic on an empty part.
abbrev singular : List String → String → Option String
singular parts suffix = Option.map (λ s. s <> suffix) (drop_last (part parts 0))

-- The cases of the switch, in their order.
unfoldable pub build_action : String → String → Option String
build_action method route_template =
    let path = trim_prefix route_template "/v1/" in
    let parts = split b'/' path in
    if method == "POST" && path == "auth/register"
    then some "auth.register"
    else if method == "POST" && path == "auth/login"
    then some "auth.login"
    else if method == "DELETE" && has_prefix path "users/me"
    then some "user.delete"
    else if method == "GET" && path == "users/me/data"
    then some "user.data_export"
    else if method == "POST" && eqb (length parts) 1
    then singular parts ".create"
    else if method == "DELETE" && eqb (length parts) 2
    then singular parts ".delete"
    else if method == "POST" && (eqb (length parts) 3 && part parts 2 == "tracks")
    then singular parts ".track.add"
    else if method == "DELETE" && (eqb (length parts) 4 && part parts 2 == "tracks")
    then singular parts ".track.remove"
    else some (to_lower method <> ("." <> join "." parts))

unfoldable pub resource_type : String → String
resource_type head =
    if head == "tracks"
    then "track"
    else if head == "playlists"
    then "playlist"
    else if head == "artists"
    then "artist"
    else if head == "auth"
    then "user"
    else if head == "users"
    then "user"
    else head

-- The resource's type and id. A split has at least one part.
unfoldable pub parse_resource : Ctx → String × String
unfolding resource_type
parse_resource c =
    let parts = split b'/' (trim_prefix c.full_path "/v1/") in
    (resource_type (part parts 0), if leb 2 (length parts) then param c "id" else "")

-- The empty string is stored as NULL.
unfoldable pub nullable_str : String → Option String
nullable_str s = if s == "" then none else some s

pub record AuditRow : Type 0 where
  pub user_id : Option String
  pub action : String
  pub resource_type : String
  pub resource_id : Option String
  pub ip_address : String
  pub user_agent : String
  pub status_code : ℕ
  pub request_id : Option String

-- Requests that are not recorded.
abbrev pub is_read : String → Bool
is_read method = method == "GET" || (method == "HEAD" || method == "OPTIONS")

-- The row of a request after its handler has left the context and a status.
unfoldable pub audit_row : Ctx → ℕ → String → AuditRow
unfolding nullable_str parse_resource
audit_row c status action =
    let (kind, id) = parse_resource c in
    record {
      user_id = nullable_str (as_string (get_key c "user_id"));
      action = action;
      resource_type = kind;
      resource_id = nullable_str id;
      ip_address = c.client_ip;
      user_agent = c.user_agent;
      status_code = status;
      request_id = nullable_str (as_string (get_key c "request_id"));
    }

-- What came of a request: a status with the context and the state, or a panic after the handler.
pub data Outcome (W : Type 0) : Type 0 where
  responded : ℕ → Ctx → W → Outcome W
  panicked : Outcome W

-- The middleware around the rest of the chain. The row is handed to an insertion that runs on its
-- own and whose failure is only logged: `record_row` adds it to the state.
unfoldable pub audit_log :
    {W : Type 0} → (AuditRow → W → W) → (Ctx → W → ℕ × Ctx × W) → Ctx → W → Outcome W
audit_log record_row rest c w =
    let (status, c', w') = rest c w in
    if is_read c.method then responded status c' w' else elim (build_action c.method c'.full_path) [
      | none ↦ panicked
      | some action ↦ responded status c' (record_row (audit_row c' status action) w')
    ]
