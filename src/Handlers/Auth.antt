-- ===== src/Handlers/Auth.antt =====
-- beatstream/internal/handler/auth.go. bcrypt, the token package and
-- the validator of e-mail addresses are parameters.
use system_design_lab.Prelude.{
  ℕ, String, Bool, true, false, Option, none, some, List, [], ◌∷◌, ◌≡◌, ◌≢◌, map, length, eqb, leb,
  ◌==◌, text_eq, if◌then◌else◌, ◌||◌, ◌&&◌, not,
}
use system_design_lab.Prelude.Texts.{◌<>◌, codes}
use system_design_lab.Gin.{Ctx, nil, str, other, get_key}
use system_design_lab.Middleware.Jwt.{JwtLibrary, Claims}
use system_design_lab.Database.{Db, User, Playlist}
use system_design_lab.Handlers.{Env, Reply, reply, problem, no_content, select, any}
use system_design_lab.Handlers.Playlists.{PlaylistRow, playlist_row}

-- bcrypt: a password hashes under a salt unless it is too long, and matches its own hash.
pub record Bcrypt : Type 0 where
  pub generate : String → String → Option String
  pub compare : String → String → Bool
  pub compare_generate :
      (salt password hash : String)
      → generate salt password ≡ some hash
      → compare hash password ≡ true

-- The token package's other half: a token that it signs is not empty and, until it expires, parses
-- under the same secret to the same claims.
pub record Signer (jwt : JwtLibrary) : Type 0 where
  pub sign : String → Claims → Option String
  pub signed :
      (secret token : String) (claims : Claims) → sign secret claims ≡ some token → token ≢ ""
  pub parse_sign :
      (secret token : String) (claims : Claims)
      → sign secret claims ≡ some token
      → jwt.parse token secret ≡ record { failed = false; valid = true; claims = some claims }

pub record UserResponse : Type 0 where
  pub id : ℕ
  pub email : String
  pub name : String
  pub role : String
  pub terms_version : ℕ
  pub created_at : ℕ

pub record RegisterBody : Type 0 where
  pub email : String
  pub password : String
  pub name : String
  pub terms_version : ℕ

pub record LoginBody : Type 0 where
  pub email : String
  pub password : String

pub record Session : Type 0 where
  pub token : String
  pub user : UserResponse

abbrev pub user_response : User → UserResponse
user_response u = record {
  id = u.id;
  email = u.email;
  name = u.name;
  role = u.role;
  terms_version = u.terms_version;
  created_at = u.created_at;
}

-- `exp` and `iat` are numbers. `print` writes a UUID.
unfoldable pub token_claims : (ℕ → String) → UserResponse → Claims
token_claims print u =
    ("user_id", str (print u.id))
    ∷ ("email", str u.email)
    ∷ ("name", str u.name)
    ∷ ("role", str u.role)
    ∷ ("exp", other)
    ∷ ("iat", other)
    ∷ []

-- `WHERE email = $1 AND deleted_at IS NULL`
abbrev is_active : User → Bool
is_active u = elim u.deleted_at [ none ↦ true | some t ↦ false ]

unfoldable pub find_email : String → List User → Option User
find_email email [] = none
find_email email (u ∷ us) =
    let rest = find_email email us in if u.email == email && is_active u then some u else rest

-- `WHERE id = $1 AND deleted_at IS NULL`
unfoldable pub find_active : ℕ → List User → Option User
find_active id [] = none
find_active id (u ∷ us) =
    let rest = find_active id us in if eqb u.id id && is_active u then some u else rest

-- The bindings of the registration's fields.
unfoldable pub is_bound : (String → Bool) → RegisterBody → Bool
is_bound is_email b =
    not (b.email == "")
    && (is_email b.email && (leb 6 (length (codes b.password)) && not (b.name == "")))

unfoldable pub terms : ℕ → ℕ
terms n = if eqb n 0 then 1 else n

abbrev pub new_user : Env → String → RegisterBody → User
new_user env hash b = record {
  id = env.new_id;
  email = b.email;
  password_hash = hash;
  name = b.name;
  created_at = env.now;
  role = "user";
  deleted_at = none;
  terms_version = terms b.terms_version;
}

module _ (bcrypt : Bcrypt) {jwt : JwtLibrary} (signer : Signer jwt) (secret : String)
    (print : ℕ → String) where
  -- `generateToken` and what follows it.
  unfoldable pub open_session : ℕ → UserResponse → Reply Session
  open_session status user = elim (signer.sign secret (token_claims print user)) [
    | none ↦ problem 500 "failed to generate token"
    | some token ↦ reply status (record { token = token; user = user })
  ]

  -- A body of none is one that is not JSON. E-mail addresses and ids are unique in the table.
  unfoldable pub register :
      (String → Bool) → String → Env → Option RegisterBody → Db → Reply Session × Db
  unfolding is_bound terms open_session
  register is_email salt env none db = (problem 400 "", db)
  register is_email salt env (some b) db =
      if not (is_bound is_email b)
      then (problem 400 "", db)
      else elim (bcrypt.generate salt b.password) [
        | none ↦ (problem 500 "failed to hash password", db)
        | some hash ↦
            if env.fails || any (λ u. u.email == b.email || eqb u.id env.new_id) db.users
            then (problem 409 "email already registered", db)
            else let u = new_user env hash b in
              (open_session 201 (user_response u), record db { users = u ∷ db.users })
      ]

  unfoldable pub login : Env → Option LoginBody → Db → Reply Session
  unfolding find_email open_session
  login env none db = problem 400 ""
  login env (some b) db =
      if b.email == "" || b.password == ""
      then problem 400 ""
      else if env.fails
      then problem 401 "invalid email or password"
      else elim (find_email b.email db.users) [
        | none ↦ problem 401 "invalid email or password"
        | some u ↦
            if bcrypt.compare u.password_hash b.password
            then open_session 200 (user_response u)
            else problem 401 "invalid email or password"
      ]

-- The user id of the request as the parameter of a statement: a missing one is NULL, and one that is
-- not a text or does not read as a UUID is an error; all of them find no user.
unfoldable pub user_id_of : Env → Ctx → Option ℕ
user_id_of env c = elim (get_key c "user_id") [ nil ↦ none | str s ↦ env.cast s | other ↦ none ]

-- The row of the request's user, or none for an error.
unfoldable pub current_user : Env → Ctx → Db → Option User
unfolding find_active user_id_of
current_user env c db =
    if env.fails
    then none
    else elim (user_id_of env c) [ none ↦ none | some id ↦ find_active id db.users ]

unfoldable pub me : Env → Ctx → Db → Reply UserResponse
unfolding current_user
me env c db = elim (current_user env c db) [
  | none ↦ problem 404 "user not found"
  | some u ↦ reply 200 (user_response u)
]

abbrev erased : (ℕ → String) → ℕ → User → User
erased print now u = record u {
  deleted_at = some now;
  email = "deleted-" <> (print u.id <> "@removed.invalid");
  name = "[deleted]";
  password_hash = "";
}

unfoldable pub erase : (ℕ → String) → ℕ → ℕ → List User → List User
erase print now id [] = []
erase print now id (u ∷ us) =
    let rest = erase print now id us in
    if eqb u.id id && is_active u then erased print now u ∷ rest else u ∷ rest

-- The new address is another user's: the statement fails.
unfoldable pub is_taken : (ℕ → String) → ℕ → List User → Bool
is_taken print id us =
    any (λ u. not (eqb u.id id) && u.email == "deleted-" <> (print id <> "@removed.invalid")) us

unfoldable pub delete_me : (ℕ → String) → Env → Ctx → Db → Reply Unit × Db
unfolding erase is_taken user_id_of find_active
delete_me print env c db =
    if env.fails
    then (problem 404 "user not found or already deleted", db)
    else elim (user_id_of env c) [
      | none ↦ (problem 404 "user not found or already deleted", db)
      | some id ↦ elim (find_active id db.users) [
        | none ↦ (problem 404 "user not found or already deleted", db)
        | some u ↦
            if is_taken print id db.users
            then (problem 404 "user not found or already deleted", db)
            else (no_content, record db { users = erase print env.now id db.users })
      ]
    ]

pub record Export : Type 0 where
  pub exported_at : ℕ
  pub user : UserResponse
  pub playlists : List PlaylistRow

abbrev owned_by : ℕ → Playlist → Bool
owned_by uid p = elim p.owner_id [ none ↦ false | some owner ↦ eqb owner uid ]

-- The list of tracks is always empty. `second_fails` is the failure of the second statement.
unfoldable pub export_me : Bool → Env → Ctx → Db → Reply Export
unfolding current_user
export_me second_fails env c db = elim (current_user env c db) [
  | none ↦ problem 404 "user not found"
  | some u ↦
      if second_fails
      then problem 500 "failed to export playlists"
      else reply 200 (record {
        exported_at = env.now;
        user = user_response u;
        playlists = map playlist_row (select (owned_by u.id) db.playlists);
      })
]
