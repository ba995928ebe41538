-- ===== src/Shortener.antt =====
-- The URL shortener of interview-prep/url-shortener/main.go: its store, its codes and its two
-- handlers. A code is the list of its bytes. The lock makes each method of the store one step.
pub mod Base64
pub mod Links
mod Tests
use system_design_lab.Prelude.{
  ℕ, ◌≡◌, String, Bool, true, false, Option, none, some, List, [], ◌∷◌, ◌++◌, ◌==◌, number_eq,
  text_eq, list_eq, take, if◌then◌else◌,
}
use system_design_lab.Prelude.Assoc.{Assoc, get, put}
use system_design_lab.Prelude.Texts.{codes}
use Base64.{encode}

pub record Store : Type 0 where
  pub codes : Assoc (List ℕ) String

unfoldable pub new_store : Store
new_store = record { codes = [] }

unfoldable pub save : Store → List ℕ → String → Store
save s code url = record s { codes = put s.codes code url }

unfoldable pub lookup : Store → List ℕ → Option String
lookup s code = get s.codes code

-- The six bytes that rand.Read leaves in the buffer are an argument.
unfoldable pub short_code : List ℕ → List ℕ
short_code random = take 8 (encode random)

pub data Response : Type 0 where
  -- http.Error with its status and message
  error : ℕ → String → Response
  -- 200 with the bytes of the body, the short link and a line feed
  link : List ℕ → Response
  not_found : Response
  -- http.Redirect with its status and target
  redirect : ℕ → String → Response

-- What ParseForm finds: an error, or the value of the field `url`, empty if it is missing.
pub data Form : Type 0 where
  malformed : Form
  url : String → Form

abbrev pub host : List ℕ
host = codes "http://localhost:8080/"

-- POST /shorten
unfoldable pub shorten : Store → Form → List ℕ → Response × Store
unfolding save
shorten db malformed random = (error 400 "bad request", db)
shorten db (url original) random =
    if original == ""
    then (error 400 "url is required", db)
    else let code = short_code random in (link (host ++ code ++ 10 ∷ []), save db code original)

-- GET /{code}
unfoldable pub follow : Store → List ℕ → Response
unfolding lookup
follow db code = elim (lookup db code) [ none ↦ not_found | some original ↦ redirect 302 original ]
