-- ===== src/Middleware/Origins.antt =====
-- Which origins the CORS middleware of beatstream/internal/middleware/security_headers.go allows.
use text.Mathlib.TextEquality.{eq_iff}
use text.Mathlib.TextLemmas.{nil-append, cons-append}
use Prim.Native.Char.{code}
use system_design_lab.Prelude.{
  String, true, not, none, some, List, [], ◌∷◌, map, elem, ◌≡◌, ◌≢◌, refl, ap, ◌∙◌, inl, inr, ◌==◌,
  ◌&&◌, text_eq, if◌then◌else◌, arith, Bool-cases, eqb_iff,
}
use system_design_lab.Prelude.Assoc.{get, get-put}
use system_design_lab.Prelude.Texts.{◌<>◌, strip_prefix, split, trim_space}
use system_design_lab.Gin.{Ctx, get_header}
use system_design_lab.Middleware.Access.{left}
use system_design_lab.Middleware.Cors.{any_allowed, is_allowed_origin, cors, comma}

any_allowed-elem :
    (origin : String) (parts : List String)
    → any_allowed origin parts ≡ elem origin (map trim_space parts)
unfolding any_allowed elem
any_allowed-elem origin [] = refl
any_allowed-elem origin (part ∷ parts) = rw (any_allowed-elem origin parts)

abbrev pub allow_origin : String
allow_origin = "Access-Control-Allow-Origin"

-- Whatever the method, the header is the request's origin if that is allowed, and else as it was.
cors-is_allowed_origin :
    (env : String) (c : Ctx)
    → get (left (cors env c)).headers allow_origin ≡ (
        if is_allowed_origin env (get_header c "Origin")
        then some (get_header c "Origin")
        else get c.headers allow_origin)
unfolding cors
cors-is_allowed_origin env c = elim (Bool-cases (c.method == "OPTIONS")) [
  | inl preflight ↦ elim (Bool-cases (is_allowed_origin env (get_header c "Origin"))) [
    | inl yes_origin ↦ rw (preflight, yes_origin) (simp get-put)
    | inr no_origin ↦ rw (preflight, no_origin) (simp get-put)
  ]
  | inr other_method ↦ elim (Bool-cases (is_allowed_origin env (get_header c "Origin"))) [
    | inl yes_origin ↦ rw (other_method, yes_origin) (simp get-put)
    | inr no_origin ↦ rw (other_method, no_origin) (simp get-put)
  ]
]

-- With a list of origins configured, an origin is allowed exactly when it is not empty and is one of
-- the list's entries without the spaces around them.
is_allowed_origin-elem :
    (env origin : String)
    → env ≢ ""
    → is_allowed_origin env origin
      ≡ (not (origin == "") && elem origin (map trim_space (split comma env)))
unfolding is_allowed_origin
is_allowed_origin-elem env origin h =
    ground (arith, eq_iff env "", any_allowed-elem origin (split comma env))

-- With a list of origins configured, the response names the request's origin as allowed exactly
-- when that origin is not empty and is one of the list's entries without the spaces around them;
-- otherwise the header is as it was.
pub cors_allows :
    (env : String) (c : Ctx)
    → env ≢ ""
    → get (left (cors env c)).headers allow_origin ≡ (
        if not (get_header c "Origin" == "")
          && elem (get_header c "Origin") (map trim_space (split comma env))
        then some (get_header c "Origin")
        else get c.headers allow_origin)
cors_allows env c h =
    rw (← is_allowed_origin-elem env (get_header c "Origin") h) (cors-is_allowed_origin env c)

pub strip_prefix-append : (p s : String) → strip_prefix (p <> s) p ≡ some s
unfolding strip_prefix
strip_prefix-append String.[] s = ap some (nil-append s)
strip_prefix-append (String.◌∷◌ c p) s =
    rw (cons-append c p s, (eqb_iff (code c) (code c)).1 refl) (strip_prefix-append p s)

no_prefix : strip_prefix "" "http://localhost" ≡ none
unfolding strip_prefix
no_prefix = refl

is_allowed_origin_default :
    (origin rest : String)
    → strip_prefix origin "http://localhost" ≡ some rest
    → is_allowed_origin "" origin ≡ true
unfolding is_allowed_origin
is_allowed_origin_default origin rest e = elim (Bool-cases (origin == "")) [
  | inl empty ↦
      absurd (
        cc (e, no_prefix, ap (λ o. strip_prefix o "http://localhost") ((eq_iff origin "").0 empty)))
  | inr given ↦ ground (arith, given, e)
]

-- With no list configured, every origin that goes on after http://localhost is allowed, also one
-- whose host only begins with that word.
pub cors_default_allows :
    (c : Ctx) (rest : String)
    → get_header c "Origin" ≡ "http://localhost" <> rest
    → get (left (cors "" c)).headers allow_origin ≡ some ("http://localhost" <> rest)
cors_default_allows c rest e =
    let allowed =
      is_allowed_origin_default (get_header c "Origin") rest
        (rw e (strip_prefix-append "http://localhost" rest)) in
    cors-is_allowed_origin "" c ∙ rw allowed (ap some e)
