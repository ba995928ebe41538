-- ===== src/Middleware/Logging.antt =====
-- beatstream/internal/middleware/zap_logger.go: the line that it writes for a request.
use system_design_lab.Prelude.{
  ℕ, String, Option, none, some, List, [], ◌∷◌, ◌++◌, ◌==◌, text_eq, if◌then◌else◌,
}
use system_design_lab.Prelude.Assoc.{get}
use system_design_lab.Gin.{Ctx, Value, nil, str, other, get_key, as_string}
use system_design_lab.Middleware.Stamps.{LogLevel, log_level}

pub data FieldValue : Type 0 where
  text : String → FieldValue
  number : ℕ → FieldValue

abbrev pub Field : Type 0
Field = String × FieldValue

-- What the line says of the request besides its context: the URL, the time that it took in
-- nanoseconds, the errors that gin kept, and the ids of a valid span.
pub record LogRequest : Type 0 where
  pub path : String
  pub query : String
  pub latency : ℕ
  pub latency_ms : ℕ
  pub errors : String
  pub span : Option (String × String)

abbrev pub unless_empty : String → String → List Field
unless_empty name s = if s == "" then [] else (name, text s) ∷ []

-- `uid.(string)` for a key that exists and is not the empty text; `none` is its panic.
abbrev pub user_field : Option Value → Option (List Field)
user_field none = some []
user_field (some nil) = none
user_field (some (str s)) = some (unless_empty "user_id" s)
user_field (some other) = none

abbrev span_fields : Option (String × String) → List Field
span_fields none = []
span_fields (some (trace_id, span_id)) =
    ("trace_id", text trace_id) ∷ ("span_id", text span_id) ∷ []

pub record LogLine : Type 0 where
  pub level : LogLevel
  pub fields : List Field

-- The line for the context and the status that the rest of the chain leaves; `none` is the panic.
unfoldable pub log_line : LogRequest → Ctx → ℕ → Option LogLine
unfolding log_level
log_line r c status = elim (user_field (get c.keys "user_id")) [
  | none ↦ none
  | some user ↦ some (record {
    level = log_level status;
    fields =
        ("status", number status)
        ∷ ("method", text c.method)
        ∷ ("path", text r.path)
        ∷ ("latency", number r.latency)
        ∷ ("latency_ms", number r.latency_ms)
        ∷ ("ip", text c.client_ip)
        ∷ ("user_agent", text c.user_agent)
        ∷ (unless_empty "query" r.query
            ++ (unless_empty "request_id" (as_string (get_key c "request_id"))
                ++ (user ++ (unless_empty "error" r.errors ++ span_fields r.span))));
  })
]
