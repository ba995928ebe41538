-- ===== src/Startup.antt =====
-- How the two processes of beatstream/cmd start: what they read from the environment, which services
-- they connect to, and when they give up. The packages that connect are parameters.
pub mod Storage
pub mod Kafka
pub mod Api
pub mod Workers
pub mod Ready
pub mod Unqueued
pub mod Tracing
pub mod Logger
pub mod Serving
pub mod Stopping
mod Tests
use system_design_lab.Prelude.{String, Bool, true, false, ◌==◌, text_eq, if◌then◌else◌}
use system_design_lab.Search.{Transport}

-- A result with an error, or a start that `log.Fatal` ends with a message.
pub data Attempt (A : Type 0) : Type 0 where
  made : A → Attempt A
  refused : String → Attempt A

infixl 5 ◌>>=◌ ◌>>◌
abbrev pub ◌>>=◌ : {A B : Type 0} → Attempt A → (A → Attempt B) → Attempt B
made a >>= f = f a
refused message >>= f = refused message

abbrev pub ◌>>◌ : {B : Type 0} → Attempt (Unit {0}) → Attempt B → Attempt B
m >> k = m >>= λ _. k

-- The message that the caller puts in front of an error.
abbrev pub wrap : {A : Type 0} → String → Attempt A → Attempt A
wrap message (made a) = made a
wrap message (refused inner) = refused message

abbrev pub check : Bool → String → Attempt (Unit {0})
check true message = made tt
check false message = refused message

-- `os.Getenv`, the empty text for a variable that is not set.
abbrev pub Environ : Type 0
Environ = String → String

unfoldable pub get_env : Environ → String → String → String
get_env env key fallback = if env key == "" then fallback else env key

unfoldable pub must_env : Environ → String → Attempt String
must_env env key = if env key == "" then refused key else made (env key)
