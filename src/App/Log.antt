-- ===== src/App/Log.antt =====
-- What is left in audit_logs by a request to the server of beatstream/cmd/api/main.go.
use system_design_lab.Prelude.{
  ℕ, String, Bool, true, false, some, List, ◌∷◌, map, ◌≡◌, refl, sym, ap, ◌∙◌, inl, inr, ◌⊎◌, arith,
  Bool-cases, Option-cases,
}
use system_design_lab.Gin.{Ctx, param}
use system_design_lab.Middleware.Audit.{
  AuditRow, Outcome, responded, audit_row, is_read, build_action,
}
use system_design_lab.Database.{Db}
use system_design_lab.Handlers.{Env}
use system_design_lab.Handlers.Admin.{delete_user, delete_row}
use system_design_lab.Handlers.Erasure.{anonymous, map-forget}
use system_design_lab.Api.{
  Handler, auth_register, auth_delete_me, admin_delete_user, artists_create, tracks_create,
  playlists_create, playlists_delete, playlists_add_track, playlists_remove_track, favorites_add,
  favorites_remove, Route, Guard,
}
use system_design_lab.Api.Stack.{respond}
use system_design_lab.App.{
  Site, Input, State, server, dispatch, insert_log, is_known, is_uuid, connected,
}
use system_design_lab.App.Frames
use system_design_lab.App.Serving.{Ends, stopped, handled, Passes-uploads}
use system_design_lab.App.Routing.{
  Matches, IsQuiet, Answered, untouched, routed, logged, respond-Answered,
}

-- The log but for the column of the users.
abbrev pub entries : Db → List AuditRow
entries db = map anonymous db.audit_logs

entries-delete_user :
    (env : Env) (c : Ctx) (db : Db) → entries (delete_user env c db).1 ≡ entries db
unfolding delete_user delete_row
entries-delete_user env c db = elim (Option-cases (env.cast (param c "id"))) [
  | inl nothing ↦ ground (arith, nothing)
  | inr (id, e) ↦ ground (arith, e, map-forget env.cast id db.audit_logs)
]

-- Why a row is not inserted.
abbrev pub IsRefused : Input → AuditRow → Db → Type 0
IsRefused i row db =
    (i.audit_fails ≡ true)
    ⊎ ((is_known i.env.cast row.user_id db ≡ false) ⊎ (is_uuid i.env.cast row.resource_id ≡ false))

insert_log_cases :
    (i : Input) (row : AuditRow) (db : Db)
    → let db' = insert_log i.audit_fails i.env.cast row db in
      (IsRefused i row db × (db' ≡ db)) ⊎ (entries db' ≡ anonymous row ∷ entries db)
unfolding insert_log
insert_log_cases i row db = elim (Bool-cases i.audit_fails) [
  | inl down ↦ inl (inl down, rw (down, insert_log))
  | inr up ↦ elim (Bool-cases (is_known i.env.cast row.user_id db)) [
    | inr unknown ↦ inl (inr (inl unknown), rw (up, insert_log, unknown))
    | inl known ↦ elim (Bool-cases (is_uuid i.env.cast row.resource_id)) [
      | inr malformed ↦ inl (inr (inr malformed), rw (up, insert_log, known, malformed))
      | inl fine ↦ inr (rw (up, insert_log, known, fine))
    ]
  ]
]

module _ {F : Type 0} (site : Site F) (i : Input) where
  entries-dispatch :
      (h : Handler) (c : Ctx) (w : State site)
      → entries (dispatch site i h c w).1.uploads.db ≡ entries w.uploads.db
  unfolding dispatch
  entries-dispatch auth_register c w = ap (map anonymous) (
      Frames.register_logs site.bcrypt site.signer site.secret site.print site.is_email i.salt i.env
        i.registration w.uploads.db)
  entries-dispatch auth_delete_me c w =
      ap (map anonymous) (Frames.delete_me_logs site.print i.env c w.uploads.db)
  entries-dispatch admin_delete_user c w = entries-delete_user i.env c w.uploads.db
  entries-dispatch artists_create c w =
      ap (map anonymous) (Frames.create_artist-IsFramed i.env i.body w.uploads.db).audit_logs
  entries-dispatch tracks_create c w =
      ap (map anonymous)
        (Frames.create_track-IsFramed i.env (connected i) i.uuid i.form w.uploads).audit_logs
  entries-dispatch playlists_create c w =
      ap (map anonymous) (Frames.create_playlist-IsFramed i.env i.body w.uploads.db).audit_logs
  entries-dispatch playlists_delete c w =
      ap (map anonymous) (Frames.delete_playlist-IsFramed i.env c w.uploads.db).audit_logs
  entries-dispatch playlists_add_track c w =
      ap (map anonymous) (Frames.add_track-IsFramed i.env c i.body w.uploads.db).audit_logs
  entries-dispatch playlists_remove_track c w =
      ap (map anonymous) (Frames.remove_track-IsFramed i.env c w.uploads.db).audit_logs
  entries-dispatch favorites_add c w =
      ap (map anonymous) (Frames.add_favorite_logs i.env c i.body w.uploads.db)
  entries-dispatch favorites_remove c w =
      ap (map anonymous) (Frames.remove_favorite_logs i.env c w.uploads.db)
  entries-dispatch _ c w = refl

  entries-Ends :
      (gs : List Guard) (h : Handler) (c : Ctx) (w : State site) {o : ℕ × Ctx × State site}
      → Ends site i gs h c w o
      → entries o.2.uploads.db ≡ entries w.uploads.db
  entries-Ends gs h c w (stopped status c' w' follows kept) = ap (λ u. entries u.db) kept
  entries-Ends gs h c w (handled c' w' passes) =
      entries-dispatch h c' w' ∙ ap (λ u. entries u.db) (Passes-uploads site i passes)

  -- What a request with this outcome has left in the log: nothing, as it reads or no route matches it;
  -- nothing, as the insertion was refused; or one row in front, with the outcome's status.
  pub data Leaves (c : Ctx) (db : Db) (status : ℕ) (c' : Ctx) (db' : Db) : Type 0 where
    quiet : IsQuiet site i c → entries db' ≡ entries db → Leaves c db status c' db'
    refused :
        (action : String)
        → is_read c.method ≡ false
        → build_action c.method c.full_path ≡ some action
        → IsRefused i (audit_row c' status action) db'
        → entries db' ≡ entries db
        → Leaves c db status c' db'
    added :
        (action : String)
        → is_read c.method ≡ false
        → build_action c.method c.full_path ≡ some action
        → entries db' ≡ anonymous (audit_row c' status action) ∷ entries db
        → Leaves c db status c' db'

  logged-Leaves :
      (r : Route) (action : String) (c : Ctx) (w : State site) (status : ℕ) (c' : Ctx)
      (w' : State site)
      → Matches site i r c
      → build_action r.method r.path ≡ some action
      → entries w'.uploads.db ≡ entries w.uploads.db
      → Leaves c w.uploads.db status c' (logged site i r action (status, c', w')).uploads.db
  logged-Leaves r action c w status c' w' m named same = elim (Bool-cases (is_read r.method)) [
    | inl reads ↦ rw reads (quiet (inl (ap is_read (sym m.method) ∙ reads)) same)
    | inr writes ↦
        let row = audit_row c' status action in
        let write = ap is_read (sym m.method) ∙ writes in
        let name =
          ap (λ x. build_action x c.full_path) (sym m.method)
          ∙ ap (build_action r.method) (sym m.path)
          ∙ named in
        elim (insert_log_cases i row w'.uploads.db) [
          | inl (why, e) ↦ rw (writes, e) (refused action write name why same)
          | inr e ↦ rw writes (added action write name (e ∙ ap (◌∷◌ (anonymous row)) same))
        ]
  ]

  Answered-Leaves :
      (c : Ctx) (w : State site) {o : Outcome (State site)}
      → Answered site i c w o
      → (status : ℕ) × (c' : Ctx) × (w' : State site) × (o ≡ responded status c' w')
        × Leaves c w.uploads.db status c' w'.uploads.db
  Answered-Leaves c w (untouched status silent) = (status, c, w, refl, quiet silent refl)
  Answered-Leaves c w (routed r action status c' w' m named ends) = (
    status,
    c',
    logged site i r action (status, c', w'),
    refl,
    logged-Leaves r action c w status c' w' m named (entries-Ends r.guards r.handler c w ends),
  )

  -- No request to the API removes or alters an entry of the audit log but in the column of the users. A
  -- reading request, and one that no route matches, leave the entries as they are; a writing one adds one
  -- entry with its action and the status that is sent, unless the insertion fails, the user of the entry
  -- is not in the table when it is inserted, or the id in the path is no UUID.
  pub request-Leaves :
      (ping_fails : Bool) (c : Ctx) (w : State site)
      → (status : ℕ) × (c' : Ctx) × (w' : State site) × (respond (server site i) ping_fails c w
          ≡ responded status c' w')
        × Leaves c w.uploads.db status c' w'.uploads.db
  request-Leaves ping_fails c w = Answered-Leaves c w (respond-Answered site i ping_fails c w)
