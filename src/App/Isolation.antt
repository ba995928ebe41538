-- ===== src/App/Isolation.antt =====
-- Whose rows a request to the server of beatstream/cmd/api/main.go can change.
use mathlib.Core.Path.{subst}
use system_design_lab.Prelude.{
  ℕ, String, Bool, true, false, not, some, List, [], ◌∷◌, all, eqb, ◌≡◌, refl, sym, ap, ◌∙◌, inl,
  inr, ◌||◌, arith, Bool-cases,
}
use system_design_lab.Gin.{Ctx, next, get_key, as_string}
use system_design_lab.Middleware.Jwt.{Claims, claim, require_role, is_role}
use system_design_lab.Middleware.Access.{Authenticated, Identified, require_auth_cases}
use system_design_lab.Middleware.Audit.{Outcome, responded}
use system_design_lab.Database.{Db}
use system_design_lab.Api.{
  Guard, require_auth_guard, require_admin_guard, run_guard, Handler, auth_register, auth_delete_me,
  admin_list_users, admin_delete_user, admin_list_audit_logs, artists_create, tracks_create,
  playlists_create, playlists_delete, playlists_add_track, playlists_remove_track, favorites_add,
  favorites_remove, Route, routes,
}
use system_design_lab.Api.Stack.{respond}
use system_design_lab.Api.Protection.{is_admin_handler, is_admin_chain, all_rows, admin_guarded}
use system_design_lab.App.{Site, Input, State, server, dispatch, insert_log, connected}
use system_design_lab.App.Frames
use system_design_lab.App.Frames.{IsUntouched, IsFramed, IsFramed-IsUntouched, IsOther}
use system_design_lab.App.Serving.{
  Ends, stopped, handled, Passes, none_left, one_more, Passes-uploads,
}
use system_design_lab.App.Routing.{Matches, Answered, untouched, routed, logged, respond-Answered}

-- The handlers whose statements write rows of the request's user.
abbrev writes_own : Handler → Bool
writes_own auth_delete_me = true
writes_own favorites_add = true
writes_own favorites_remove = true
writes_own _ = false

abbrev is_auth_chain : List Guard → Bool
is_auth_chain (require_auth_guard ∷ []) = true
is_auth_chain _ = false

own_guarded : all (λ r. not (writes_own r.handler) || is_auth_chain r.guards) routes ≡ true
own_guarded = refl

next_inj : {c c' : Ctx} → next c ≡ next c' → c ≡ c'
next_inj e = cc

same_rows : (j : ℕ) (db : Db) → IsUntouched j db db
same_rows j db = record { account = refl; favorites = refl }

module _ {F : Type 0} (site : Site F) (i : Input) where
  -- A handler that is not an administrator's changes no rows of a user but the request's own and the
  -- new one.
  dispatch-IsUntouched :
      (h : Handler) (c : Ctx) (w : State site) (j : ℕ)
      → is_admin_handler h ≡ false
      → (writes_own h ≡ true → IsOther i.env c j)
      → eqb i.env.new_id j ≡ false
      → IsUntouched j w.uploads.db (dispatch site i h c w).1.uploads.db
  unfolding dispatch
  dispatch-IsUntouched auth_register c w j a u n =
      Frames.register-IsUntouched site.bcrypt site.signer site.secret site.print site.is_email
        i.salt i.env i.registration w.uploads.db j n
  dispatch-IsUntouched auth_delete_me c w j a u n =
      Frames.delete_me-IsUntouched site.print i.env c w.uploads.db j (u refl)
  dispatch-IsUntouched admin_list_users c w j a u n = cc
  dispatch-IsUntouched admin_delete_user c w j a u n = cc
  dispatch-IsUntouched admin_list_audit_logs c w j a u n = cc
  dispatch-IsUntouched artists_create c w j a u n =
      IsFramed-IsUntouched j (Frames.create_artist-IsFramed i.env i.body w.uploads.db)
  dispatch-IsUntouched tracks_create c w j a u n =
      IsFramed-IsUntouched j
        (Frames.create_track-IsFramed i.env (connected i) i.uuid i.form w.uploads)
  dispatch-IsUntouched playlists_create c w j a u n =
      IsFramed-IsUntouched j (Frames.create_playlist-IsFramed i.env i.body w.uploads.db)
  dispatch-IsUntouched playlists_delete c w j a u n =
      IsFramed-IsUntouched j (Frames.delete_playlist-IsFramed i.env c w.uploads.db)
  dispatch-IsUntouched playlists_add_track c w j a u n =
      IsFramed-IsUntouched j (Frames.add_track-IsFramed i.env c i.body w.uploads.db)
  dispatch-IsUntouched playlists_remove_track c w j a u n =
      IsFramed-IsUntouched j (Frames.remove_track-IsFramed i.env c w.uploads.db)
  dispatch-IsUntouched favorites_add c w j a u n =
      Frames.add_favorite-IsUntouched i.env c i.body w.uploads.db j (u refl)
  dispatch-IsUntouched favorites_remove c w j a u n =
      Frames.remove_favorite-IsUntouched i.env c w.uploads.db j (u refl)
  dispatch-IsUntouched _ c w j a u n = same_rows j w.uploads.db

  auth-Passes :
      (gs : List Guard) (c c' : Ctx) (w w' : State site)
      → is_auth_chain gs ≡ true
      → Passes site i gs c w c' w'
      → (claims : Claims) × Authenticated site.jwt site.secret c claims × Identified claims c'
  unfolding run_guard server
  auth-Passes (require_auth_guard ∷ []) c c' w w' b (one_more _ _ _ c1 _ _ _ e (none_left _ _)) =
      elim (require_auth_cases site.jwt site.secret c) [
        | inl (claims, c2, a, e2, who) ↦
            (claims, a, subst (Identified claims) (next_inj (sym e2 ∙ e)) who)
        | inr (never, message, e2) ↦ cc (e, e2)
      ]
  auth-Passes _ c c' w w' b p = cc

  admin-Passes :
      (gs : List Guard) (c c' : Ctx) (w w' : State site)
      → is_admin_chain gs ≡ true
      → Passes site i gs c w c' w'
      → (claims : Claims) × Authenticated site.jwt site.secret c claims
        × (is_role (claim claims "role") "admin" ≡ true)
  unfolding run_guard server require_role
  admin-Passes (require_auth_guard ∷ require_admin_guard ∷ []) c c' w w' b
        (one_more _ _ _ c1 _ _ _ e (one_more _ _ _ c2 _ _ _ e' rest)) =
      elim (require_auth_cases site.jwt site.secret c) [
        | inr (never, message, e2) ↦ cc (e, e2)
        | inl (claims, c3, a, e2, who) ↦
            let same : c3 ≡ c1 = next_inj (sym e2 ∙ e) in
            let role : get_key c1 "user_role" ≡ claim claims "role" =
              subst (λ x. get_key x "user_role" ≡ claim claims "role") same who.role in
            elim (Bool-cases (is_role (get_key c1 "user_role") "admin")) [
              | inl admin ↦ (claims, a, ap (λ v. is_role v "admin") (sym role) ∙ admin)
              | inr plain ↦ absurd (ground (arith, e', plain))
            ]
      ]
  admin-Passes _ c c' w w' b p = cc

  -- No token of the request makes it this user's or an administrator's.
  pub record IsStranger (c : Ctx) (j : ℕ) : Type 0 where
    pub not_own :
        (claims : Claims) (user : ℕ)
        → Authenticated site.jwt site.secret c claims
        → i.env.cast (as_string (claim claims "user_id")) ≡ some user
        → eqb user j ≡ false
    pub no_admin :
        (claims : Claims)
        → Authenticated site.jwt site.secret c claims
        → is_role (claim claims "role") "admin" ≡ false

  Passes-IsOther :
      (r : Route) (c c' : Ctx) (w w' : State site) (j : ℕ)
      → Matches site i r c
      → IsStranger c j
      → Passes site i r.guards c w c' w'
      → writes_own r.handler ≡ true
      → IsOther i.env c' j
  Passes-IsOther r c c' w w' j m stranger passes own = λ user e.
      let guarded =
        all_rows (λ r. not (writes_own r.handler) || is_auth_chain r.guards) routes m.index
          own_guarded m.row in
      let (claims, a, who) = auth-Passes r.guards c c' w w' (ground (arith, guarded, own)) passes in
      stranger.not_own claims user a (ap (λ v. i.env.cast (as_string v)) (sym who.user_id) ∙ e)

  Passes-no_admin :
      (r : Route) (c c' : Ctx) (w w' : State site) (j : ℕ)
      → Matches site i r c
      → IsStranger c j
      → Passes site i r.guards c w c' w'
      → is_admin_handler r.handler ≡ false
  Passes-no_admin r c c' w w' j m stranger passes = elim (Bool-cases (is_admin_handler r.handler)) [
    | inr other ↦ other
    | inl admin ↦
        let guarded =
          all_rows (λ r. not (is_admin_handler r.handler) || is_admin_chain r.guards) routes m.index
            admin_guarded m.row in
        let (claims, a, role) =
          admin-Passes r.guards c c' w w' (ground (arith, guarded, admin)) passes in
        cc (role, stranger.no_admin claims a)
  ]

  Ends-IsUntouched :
      (r : Route) (c : Ctx) (w : State site) (j : ℕ) {o : ℕ × Ctx × State site}
      → Matches site i r c
      → IsStranger c j
      → eqb i.env.new_id j ≡ false
      → Ends site i r.guards r.handler c w o
      → IsUntouched j w.uploads.db o.2.uploads.db
  Ends-IsUntouched r c w j m stranger n (stopped status c' w' follows kept) =
      subst (λ u. IsUntouched j w.uploads.db u.db) (sym kept) (same_rows j w.uploads.db)
  Ends-IsUntouched r c w j m stranger n (handled c' w' passes) =
      let done =
        dispatch-IsUntouched r.handler c' w' j (Passes-no_admin r c c' w w' j m stranger passes)
          (Passes-IsOther r c c' w w' j m stranger passes) n in
      subst (λ u. IsUntouched j u.db (dispatch site i r.handler c' w').1.uploads.db)
        (Passes-uploads site i passes) done

  logged-IsUntouched :
      (r : Route) (action : String) (j : ℕ) (db : Db) (status : ℕ) (c' : Ctx) (w' : State site)
      → IsUntouched j db w'.uploads.db
      → IsUntouched j db (logged site i r action (status, c', w')).uploads.db
  unfolding insert_log
  logged-IsUntouched r action j db status c' w' h = record {
    account = ground (arith, h.account);
    favorites = ground (arith, h.favorites);
  }

  Answered-IsUntouched :
      (c : Ctx) (w : State site) (j : ℕ) {o : Outcome (State site)}
      → IsStranger c j
      → eqb i.env.new_id j ≡ false
      → Answered site i c w o
      → (status : ℕ) × (c' : Ctx) × (w' : State site) × (o ≡ responded status c' w')
        × IsUntouched j w.uploads.db w'.uploads.db
  Answered-IsUntouched c w j stranger n (untouched status quiet) =
      (status, c, w, refl, same_rows j w.uploads.db)
  Answered-IsUntouched c w j stranger n (routed r action status c' w' m named ends) = (
    status,
    c',
    logged site i r action (status, c', w'),
    refl,
    logged-IsUntouched r action j w.uploads.db status c' w'
        (Ends-IsUntouched r c w j m stranger n ends),
  )

  -- A request to the API that carries no token of user j and no token of an administrator changes
  -- neither the account of user j nor the favorites of user j, whatever its method, path and body and
  -- the state, if the new UUID that it may draw is not j.
  pub request-IsUntouched :
      (ping_fails : Bool) (c : Ctx) (w : State site) (j : ℕ)
      → IsStranger c j
      → eqb i.env.new_id j ≡ false
      → (status : ℕ) × (c' : Ctx) × (w' : State site) × (respond (server site i) ping_fails c w
          ≡ responded status c' w')
        × IsUntouched j w.uploads.db w'.uploads.db
  request-IsUntouched ping_fails c w j stranger n =
      Answered-IsUntouched c w j stranger n (respond-Answered site i ping_fails c w)
