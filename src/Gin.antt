-- ===== src/Gin.antt =====
-- The part of a gin context that the middleware reads and writes. Gin itself is not in the
-- repository; a middleware is modelled as a guard that calls `c.Next()` with the context that it
-- leaves, or aborts with a status.
use system_design_lab.Prelude.{ℕ, String, Option, none, some, text_eq}
use system_design_lab.Prelude.Assoc.{Assoc, get, put}

-- A value of type `any` in the context or in a token's claims.
pub data Value : Type 0 where
  nil : Value
  str : String → Value
  other : Value

pub record Ctx : Type 0 where
  -- of the request
  pub method : String
  pub full_path : String
  pub request_headers : Assoc String String
  pub cookies : Assoc String String
  pub params : Assoc String String
  pub client_ip : String
  pub user_agent : String
  -- `c.Set` and `c.Get`
  pub keys : Assoc String Value
  -- `c.Header`
  pub headers : Assoc String String

abbrev pub or_empty : Option String → String
or_empty none = ""
or_empty (some s) = s

-- `c.GetHeader`, the empty string for a missing header.
abbrev pub get_header : Ctx → String → String
get_header c name = or_empty (get c.request_headers name)

-- `c.Param`
abbrev pub param : Ctx → String → String
param c name = or_empty (get c.params name)

-- `c.Set`
abbrev pub set_key : Ctx → String → Value → Ctx
set_key c key v = record c { keys = put c.keys key v }

-- `c.Header`
abbrev pub set_header : Ctx → String → String → Ctx
set_header c name v = record c { headers = put c.headers name v }

abbrev pub or_nil : Option Value → Value
or_nil none = nil
or_nil (some v) = v

-- `c.Get`, whose first result is nil for a missing key.
abbrev pub get_key : Ctx → String → Value
get_key c key = or_nil (get c.keys key)

-- The type assertion `v.(string)` with its second result dropped: the empty string for another type.
abbrev pub as_string : Value → String
as_string nil = ""
as_string (str s) = s
as_string other = ""

-- What a guard does: go on to the next handler, or stop with a status and an error message.
pub data Verdict : Type 0 where
  next : Ctx → Verdict
  abort : ℕ → String → Ctx → Verdict
