-- ===== src/Handlers/Accounts.antt =====
-- An account of beatstream/internal/handler/auth.go from its registration to its deletion.
use text.Mathlib.TextEquality.{eq_iff}
use system_design_lab.Prelude.{
  ℕ, String, Bool, true, false, none, some, List, [], ◌∷◌, length, ◌≡◌, inl, inr, refl, ap, ◌∙◌,
  sym, eqb, leb, ◌==◌, text_eq, ==-refl, ◌||◌, arith, Bool-cases, Option-cases,
}
use system_design_lab.Prelude.Assoc.{get}
use system_design_lab.Prelude.Texts.{◌<>◌, codes, has_prefix}
use system_design_lab.Gin.{Ctx, str, next, get_header, get_key}
use system_design_lab.Middleware.Jwt.{JwtLibrary, claim, require_auth, extract_token}
use system_design_lab.Middleware.Access.{Authenticated, require_auth_cases}
use system_design_lab.Middleware.Origins.{strip_prefix-append}
use system_design_lab.Database.{Db, User}
use system_design_lab.Handlers.{Env, reply, problem, no_content, any}
use system_design_lab.Handlers.Auth.{
  Bcrypt, Signer, UserResponse, RegisterBody, Session, user_response, token_claims, find_email,
  find_active, is_bound, new_user, open_session, register, login, user_id_of, current_user, me,
  erase, is_taken, delete_me, export_me,
}

long_enough : (p : String) → leb 6 (length (codes p)) ≡ true → (p == "") ≡ false
long_enough p h = elim (Bool-cases (p == "")) [
  | inl empty ↦
      let nothing : length (codes p) ≡ 0 = ap (λ s. length (codes s)) ((eq_iff p "").0 empty) in
      absurd (ground (arith, h, nothing))
  | inr given ↦ given
]

found_new : (u : User) (us : List User) → u.deleted_at ≡ none → find_email u.email (u ∷ us) ≡ some u
unfolding find_email
found_new u us h = rw (h, find_email, ==-refl u.email)

is_bound_lem :
    (is_email : String → Bool) (b : RegisterBody)
    → is_bound is_email b ≡ true
    → (b.email == "" || b.password == "") ≡ false
unfolding is_bound
is_bound_lem is_email b h = ground (arith, h, long_enough b.password)

module _ (bcrypt : Bcrypt) {jwt : JwtLibrary} (signer : Signer jwt) (secret : String)
    (print : ℕ → String) where
  -- After a registration that succeeds, logging in with the same address and password succeeds, for
  -- the same user.
  pub login-register :
      (is_email : String → Bool) (salt : String) (env env' : Env) (b : RegisterBody) (db db' : Db)
      (session : Session)
      → register bcrypt signer secret print is_email salt env (some b) db ≡ (reply 201 session, db')
      → env'.fails ≡ false
      → (token : String) × (login bcrypt signer secret print env'
            (some (record { email = b.email; password = b.password }))
            db'
          ≡ reply 200 (record { token = token; user = session.user }))
  unfolding register login is_bound find_email open_session
  login-register is_email salt env env' b db db' session h up =
      elim (Bool-cases (is_bound is_email b)) [
        | inr unbound ↦ absurd (ground (arith, h, unbound))
        | inl bound ↦ elim (Option-cases (bcrypt.generate salt b.password)) [
          | inl unhashed ↦ absurd (ground (arith, h, bound, unhashed))
          | inr (hash, hashed) ↦
              elim (Bool-cases
                (env.fails || any (λ u. u.email == b.email || eqb u.id env.new_id) db.users)) [
                  | inl taken ↦ absurd (ground (arith, h, bound, hashed, taken))
                  | inr free ↦
                      elim (Option-cases (
                        signer.sign secret
                          (token_claims print (user_response (new_user env hash b))))) [
                            | inl unsigned ↦
                                absurd (ground (arith, h, bound, hashed, free, unsigned))
                            | inr (token, signed) ↦
                                let u = new_user env hash b in
                                let opened : Session = record {
                                  token = token;
                                  user = user_response u;
                                } in
                                let whole : register bcrypt signer secret print is_email salt env
                                      (some b) db
                                    ≡ (reply 201 opened, record db { users = u ∷ db.users }) =
                                  rw (bound, register, hashed, free, open_session, signed) in
                                let same : session ≡ opened = ground (arith, h, whole) in
                                let stored = ap (λ r. r.1) (sym h ∙ whole) in
                                (
                                  token,
                                  rw (
                                    stored,
                                    same,
                                    login,
                                    is_bound_lem is_email b bound,
                                    up,
                                    found_new u db.users refl,
                                    bcrypt.compare_generate salt b.password hash hashed,
                                    open_session,
                                    signed,
                                  ),
                                )
                          ]
                ]
        ]
      ]

  found_token :
      (c : Ctx) (token : String)
      → get_header c "Authorization" ≡ "Bearer " <> token
      → extract_token c ≡ token
  unfolding extract_token
  found_token c token h =
      let bearer : has_prefix ("Bearer " <> token) "Bearer " ≡ true =
        rw (strip_prefix-append "Bearer " token, has_prefix) in
      rw (h, extract_token, bearer, strip_prefix-append "Bearer " token)

  authenticated :
      (user : UserResponse) (token : String) (c : Ctx)
      → signer.sign secret (token_claims print user) ≡ some token
      → extract_token c ≡ token
      → Authenticated jwt secret c (token_claims print user)
  authenticated user token c signed e =
      let parsed =
        ap (λ t. jwt.parse t secret) e
        ∙ signer.parse_sign secret token (token_claims print user) signed in
      record {
        given =
            λ empty. signer.signed secret token (token_claims print user) signed (sym e ∙ empty);
        parsed = ap (λ r. r.failed) parsed;
        held = ap (λ r. r.claims) parsed;
      }

  -- The token of a session is accepted by `RequireAuth` under the same secret, which puts the
  -- session's user into the context.
  pub require_auth-open_session :
      (status : ℕ) (user : UserResponse) (session : Session) (c : Ctx)
      → open_session bcrypt signer secret print status user ≡ reply status session
      → get_header c "Authorization" ≡ "Bearer " <> session.token
      → (c' : Ctx) × (require_auth jwt secret c ≡ next c')
        × (get_key c' "user_id" ≡ str (print user.id))
        × (get_key c' "user_role" ≡ str user.role)
  unfolding open_session token_claims get
  require_auth-open_session status user session c h header =
      elim (Option-cases (signer.sign secret (token_claims print user))) [
        | inl unsigned ↦ absurd (ground (arith, h, unsigned))
        | inr (token, signed) ↦
            let same : session.token ≡ token = ground (arith, h, signed) in
            let a = authenticated user token c signed (found_token c session.token header ∙ same) in
            elim (require_auth_cases jwt secret c) [
              | inr (never, message, e) ↦ absurd (never (token_claims print user) a)
              | inl (claims, c', b, e, who) ↦
                  let agree : claims ≡ token_claims print user = ground (arith, a.held, b.held) in
                  (
                    c',
                    e,
                    who.user_id ∙ ap (λ m. claim m "user_id") agree,
                    who.role ∙ ap (λ m. claim m "role") agree,
                  )
            ]
      ]

find_active-erase :
    (print : ℕ → String) (now id : ℕ) (us : List User)
    → find_active id (erase print now id us) ≡ none
unfolding find_active erase
find_active-erase print now id [] = refl
find_active-erase print now id (u ∷ us) = ground (arith, find_active-erase print now id us)

current_user-none :
    (env : Env) (c : Ctx) (db : Db) (id : ℕ)
    → user_id_of env c ≡ some id
    → find_active id db.users ≡ none
    → current_user env c db ≡ none
unfolding current_user
current_user-none env c db id who gone = ground (arith, who, gone)

delete_me-none :
    (print : ℕ → String) (env : Env) (c : Ctx) (db : Db) (id : ℕ)
    → user_id_of env c ≡ some id
    → find_active id db.users ≡ none
    → delete_me print env c db ≡ (problem 404 "user not found or already deleted", db)
unfolding delete_me
delete_me-none print env c db id who gone = elim (Bool-cases env.fails) [
  | inl down ↦ rw (down, delete_me)
  | inr up ↦ rw (up, delete_me, who, gone)
]

delete_me_users :
    (print : ℕ → String) (env : Env) (c : Ctx) (db : Db)
    → (delete_me print env c db).0 ≡ no_content
    → (id : ℕ) × (user_id_of env c ≡ some id)
      × ((delete_me print env c db).1.users ≡ erase print env.now id db.users)
unfolding delete_me
delete_me_users print env c db h = elim (Bool-cases env.fails) [
  | inl down ↦ absurd (ground (arith, h, down))
  | inr up ↦ elim (Option-cases (user_id_of env c)) [
    | inl nobody ↦ absurd (ground (arith, h, up, nobody))
    | inr (id, who) ↦ elim (Option-cases (find_active id db.users)) [
      | inl gone ↦ absurd (ground (arith, h, up, who, gone))
      | inr (u, found) ↦ elim (Bool-cases (is_taken print id db.users)) [
        | inl taken ↦ absurd (ground (arith, h, up, who, found, taken))
        | inr free ↦ (id, who, rw (up, delete_me, who, found, free))
      ]
    ]
  ]
]

-- Once a user's account is deleted, no later request with the same user id finds the user: reading
-- and exporting the account and deleting it again all answer 404, and the last changes nothing.
pub delete_me_final :
    (print : ℕ → String) (env env' : Env) (c c' : Ctx) (second_fails : Bool) (db : Db)
    → (delete_me print env c db).0 ≡ no_content
    → user_id_of env' c' ≡ user_id_of env c
    → let db' = (delete_me print env c db).1 in
      (me env' c' db' ≡ problem 404 "user not found")
      × (export_me second_fails env' c' db' ≡ problem 404 "user not found")
      × (delete_me print env' c' db' ≡ (problem 404 "user not found or already deleted", db'))
unfolding me export_me current_user
delete_me_final print env env' c c' second_fails db h same =
    let (id, who, users) = delete_me_users print env c db h in
    let db' = (delete_me print env c db).1 in
    let gone : find_active id db'.users ≡ none =
      rw users (find_active-erase print env.now id db.users) in
    let nobody : current_user env' c' db' ≡ none =
      current_user-none env' c' db' id (same ∙ who) gone in
    (rw (nobody, me), rw (nobody, export_me), delete_me-none print env' c' db' id (same ∙ who) gone)
