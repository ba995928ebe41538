-- ===== src/App/Tests.antt =====
-- The theorems on one request at a small database.
use system_design_lab.Prelude.{
  ℕ, true, false, some, ◌≡◌, ◌⊎◌, ◌∙◌, refl, sym, ap, eqb, ◌==◌, text_eq, arith,
}
use system_design_lab.Prelude.Assoc.{get}
use system_design_lab.Prelude.Texts.{strip_prefix}
use system_design_lab.Middleware.Access.{Authenticated}
use system_design_lab.Gin.{Ctx, as_string}
use system_design_lab.Middleware.Jwt.{Claims, claim, extract_token, is_role}
use system_design_lab.Middleware.Audit.{responded}
use system_design_lab.Handlers.{any}
use system_design_lab.Api.Stack.{respond, stack}
use system_design_lab.Api.Headers.{IsStamped, id_of, final_ctx}
use system_design_lab.App.{State, server}
use system_design_lab.App.Serving.{responses-IsStamped}
use system_design_lab.App.Frames.{IsUntouched}
use system_design_lab.App.Isolation.{IsStranger, request-IsUntouched}
use system_design_lab.App.Log.{Leaves, request-Leaves}
use system_design_lab.App.Unlogged.{IsOwnDeletion, without_user, self_deletion_unlogged}
use system_design_lab.App.Fixtures.{
  cast, claims_of, first, input, jwt, leave, log_request, request_of, site, user,
}

responses-IsStamped_example :
    ((false ≡ true)
      × (final_ctx (stack (server site input) false false "uuid" "" log_request leave first)
          ≡ leave))
    ⊎ ((false ≡ false)
        × IsStamped ""
            (id_of "uuid" leave)
            (final_ctx (stack (server site input) false false "uuid" "" log_request leave first)))
responses-IsStamped_example =
    responses-IsStamped site input false false "uuid" "" log_request leave first

held_inj : {a b : Claims} → some a ≡ some b → a ≡ b
held_inj e = cc

leave_claims : (claims : Claims) → Authenticated jwt "s" leave claims → claims_of "user" ≡ claims
unfolding extract_token get strip_prefix
leave_claims claims a = held_inj a.held

leave_user :
    (user : ℕ)
    → cast (as_string (claim (claims_of "user") "user_id")) ≡ some user
    → eqb user 6 ≡ false
unfolding get
leave_user user e = ground (arith, e)

leave-IsStranger : IsStranger site input leave 6
unfolding get
leave-IsStranger = record {
  not_own = λ claims user a e.
      leave_user user (ap (λ m. cast (as_string (claim m "user_id"))) (leave_claims claims a) ∙ e);
  no_admin = λ claims a. sym (ap (λ m. is_role (claim m "role") "admin") (leave_claims claims a));
}

request-IsUntouched_example :
    (status : ℕ) × (c' : Ctx) × (w' : State site) × (respond (server site input) false leave first
      ≡ responded status c' w')
    × IsUntouched 6 first.uploads.db w'.uploads.db
request-IsUntouched_example =
    request-IsUntouched site input false leave first 6 leave-IsStranger refl

request-Leaves_example :
    (status : ℕ) × (c' : Ctx) × (w' : State site) × (respond (server site input) false leave first
      ≡ responded status c' w')
    × Leaves site input leave first.uploads.db status c' w'.uploads.db
request-Leaves_example = request-Leaves site input false leave first

abbrev own : Ctx
own = request_of "Bearer admin" "DELETE" "/v1/admin/users/:id" "five"

own-IsOwnDeletion : IsOwnDeletion site input own first 5
unfolding get extract_token any strip_prefix
own-IsOwnDeletion = record {
  claims = claims_of "admin";
  text = "five";
  method = refl;
  path = refl;
  names = refl;
  token = record { given = λ e. cc (ap (λ s. s == "") e); parsed = refl; held = refl };
  admin = refl;
  own = refl;
  same = refl;
  given = refl;
  works = refl;
  there = refl;
}

self_deletion_unlogged_example :
    (c' : Ctx) × (respond (server site input) false own first
      ≡ responded 204 c' (without_user site input first 5))
self_deletion_unlogged_example =
    self_deletion_unlogged site input false own first 5 own-IsOwnDeletion
