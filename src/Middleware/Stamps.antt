-- ===== src/Middleware/Stamps.antt =====
-- The small middleware of beatstream/internal/middleware: requestid.go, and the parts of
-- zap_logger.go and prometheus.go that decide something.
use system_design_lab.Prelude.{ℕ, String, ◌==◌, text_eq, leb, if◌then◌else◌}
use system_design_lab.Prelude.Texts.{itoa}
use system_design_lab.Gin.{Ctx, str, Verdict, next, get_header, set_key, set_header}

-- The new UUID is an argument.
unfoldable pub request_id : String → Ctx → Verdict
request_id uuid c =
    let given = get_header c "X-Request-ID" in
    let id = if given == "" then uuid else given in
    next (set_header (set_key c "request_id" (str id)) "X-Request-ID" id)

pub data LogLevel : Type 0 where
  info warn error : LogLevel

-- The level of the line that zap_logger.go writes for a status.
unfoldable pub log_level : ℕ → LogLevel
log_level status = if leb 500 status then error else if leb 400 status then warn else info

-- The labels of the counters in prometheus.go.
pub record Labels : Type 0 where
  pub method : String
  pub path : String
  pub status : String

unfoldable pub request_labels : Ctx → ℕ → Labels
request_labels c status = record {
  method = c.method;
  path = if c.full_path == "" then "unknown" else c.full_path;
  status = itoa status;
}
