-- ===== src/Startup/Storage.antt =====
-- The clients of the object store, beatstream/internal/storage/s3.go. A client is the settings that
-- the package of AWS is given.
use system_design_lab.Prelude.{
  ℕ, String, Bool, Option, none, some, List, ◌==◌, ◌&&◌, not, text_eq, if◌then◌else◌,
}
use system_design_lab.Prelude.Texts.{◌<>◌}
use system_design_lab.Startup.{Attempt, made, refused, ◌>>=◌, wrap}

pub record Config : Type 0 where
  pub bucket : String
  pub region : String
  pub endpoint : String
  pub access_key : String
  pub secret_key : String
  pub presign_endpoint : String

pub record Client : Type 0 where
  pub region : String
  pub credentials : Option (String × String)
  pub base_endpoint : Option String
  pub use_path_style : Bool

pub record Storage : Type 0 where
  pub upload_client : Client
  pub presign_client : Client
  pub bucket : String

abbrev pub unless_empty : {A : Type 0} → String → A → Option A
unless_empty s a = if s == "" then none else some a

-- `loads` says that `LoadDefaultConfig` succeeds.
module _ (loads : String → Option (String × String) → Bool) where
  unfoldable pub build_client : String → String → String → String → Attempt Client
  build_client region endpoint access_key secret_key =
      let credentials = unless_empty access_key (access_key, secret_key) in
      if loads region credentials
      then made (record {
        region = region;
        credentials = credentials;
        base_endpoint = unless_empty endpoint endpoint;
        use_path_style = not (endpoint == "");
      })
      else refused "aws config"

  -- The second client, for an endpoint of its own.
  abbrev pub presign_source : Config → Client → Attempt Client
  presign_source cfg upload =
      if not (cfg.presign_endpoint == "") && not (cfg.presign_endpoint == cfg.endpoint)
      then wrap "presign client"
          (build_client cfg.region cfg.presign_endpoint cfg.access_key cfg.secret_key)
      else made upload

  unfoldable pub new : Config → Attempt Storage
  unfolding build_client
  new cfg = do
    upload ←
        wrap "upload client" (build_client cfg.region cfg.endpoint cfg.access_key cfg.secret_key)
    presign ← presign_source cfg upload
    made (record { upload_client = upload; presign_client = presign; bucket = cfg.bucket })

-- `head` and `create` say that the calls for a bucket succeed.
unfoldable pub ensure_bucket : (String → Bool) → (String → Bool) → Storage → Attempt (Unit {0})
ensure_bucket head create s =
    if head s.bucket then made tt else if create s.bucket then made tt else refused "create bucket"

-- What `PutObject` is given, next to the body.
pub record PutInput : Type 0 where
  pub bucket : String
  pub key : String
  pub content_length : ℕ
  pub content_type : String

-- The calls of the client: `puts` says that one succeeds; the others are none where they fail.
pub record Calls : Type 0 where
  pub puts : Client → PutInput → List ℕ → Bool
  pub gets : Client → String → String → Option (List ℕ)
  pub presigns : Client → String → String → ℕ → Option String
  pub parse_url : String → Option String

module _ (calls : Calls) where
  unfoldable pub upload : Storage → String → List ℕ → ℕ → String → Attempt (Unit {0})
  upload s key body size content_type =
      let input : PutInput = record {
        bucket = s.bucket;
        key = key;
        content_length = size;
        content_type = content_type;
      } in
      if calls.puts s.upload_client input body then made tt else refused "put object"

  unfoldable pub download : Storage → String → Attempt (List ℕ)
  download s key = elim (calls.gets s.upload_client s.bucket key) [
    | none ↦ refused ("get object " <> key)
    | some body ↦ made body
  ]

  abbrev parsed : Option String → Attempt String
  parsed none = refused "parse url"
  parsed (some url) = made url

  -- Signed by the second client.
  unfoldable pub presigned_url : Storage → String → ℕ → Attempt String
  presigned_url s key ttl = elim (calls.presigns s.presign_client s.bucket key ttl) [
    | none ↦ refused "presign"
    | some url ↦ parsed (calls.parse_url url)
  ]
