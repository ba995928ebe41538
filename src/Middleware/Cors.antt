-- ===== src/Middleware/Cors.antt =====
-- beatstream/internal/middleware/security_headers.go. The environment variable ALLOWED_ORIGINS is an
-- argument, empty if it is not set.
use system_design_lab.Prelude.{
  ℕ, String, Bool, false, List, [], ◌∷◌, ◌==◌, ◌||◌, text_eq, if◌then◌else◌,
}
use system_design_lab.Prelude.Texts.{◌<>◌, has_prefix, split, join, trim_space}
use system_design_lab.Gin.{Ctx, Verdict, next, abort, get_header, set_header}

abbrev pub comma : ℕ
comma = b','

-- The loop over the allowed origins.
unfoldable pub any_allowed : String → List String → Bool
any_allowed origin [] = false
any_allowed origin (allowed ∷ rest) = trim_space allowed == origin || any_allowed origin rest

unfoldable pub is_allowed_origin : String → String → Bool
unfolding any_allowed
is_allowed_origin env origin =
    if origin == ""
    then false
    else if env == ""
    then has_prefix origin "http://localhost" || has_prefix origin "https://localhost"
    else any_allowed origin (split comma env)

abbrev first_trimmed : List String → String
first_trimmed [] = "http://localhost:3000 http://localhost:3001"
first_trimmed (part ∷ parts) = trim_space part

unfoldable pub get_allowed_origin : String → String
get_allowed_origin env =
    if env == ""
    then "http://localhost:3000 http://localhost:3001"
    else first_trimmed (split comma env)

unfoldable pub build_csp : String → String
unfolding get_allowed_origin
build_csp env = join "; " (
    "default-src 'self'"
    ∷ "script-src 'self'"
    ∷ "style-src 'self' 'unsafe-inline'"
    ∷ "img-src 'self' data: blob:"
    ∷ "media-src 'self' blob:"
    ∷ ("connect-src 'self' " <> get_allowed_origin env)
    ∷ "font-src 'self'"
    ∷ "object-src 'none'"
    ∷ "base-uri 'self'"
    ∷ "frame-ancestors 'none'"
    ∷ [])

unfoldable pub security_headers : String → Ctx → Verdict
unfolding build_csp
security_headers env c =
    let c1 = set_header c "X-Content-Type-Options" "nosniff" in
    let c2 = set_header c1 "X-Frame-Options" "DENY" in
    let c3 = set_header c2 "X-XSS-Protection" "1; mode=block" in
    let c4 = set_header c3 "Strict-Transport-Security" "max-age=31536000; includeSubDomains" in
    let c5 = set_header c4 "Content-Security-Policy" (build_csp env) in
    let c6 = set_header c5 "Referrer-Policy" "strict-origin-when-cross-origin" in
    next (set_header c6 "Permissions-Policy" "camera=(), microphone=(), geolocation=()")

unfoldable pub cors : String → Ctx → Verdict
cors env c =
    let origin = get_header c "Origin" in
    let c1 =
      if is_allowed_origin env origin
      then set_header (set_header c "Access-Control-Allow-Origin" origin) "Vary" "Origin"
      else c in
    let c2 = set_header c1 "Access-Control-Allow-Methods" "GET, POST, PUT, DELETE, OPTIONS" in
    let c3 =
      set_header c2 "Access-Control-Allow-Headers" "Content-Type, Authorization, X-Request-ID" in
    let c4 = set_header c3 "Access-Control-Max-Age" "86400" in
    let c5 = set_header c4 "Access-Control-Allow-Credentials" "false" in
    if c.method == "OPTIONS" then abort 204 "" c5 else next c5
