-- ===== src/Handlers/Paging.antt =====
-- Reading a playlist page by page through beatstream/internal/handler/playlists.go.
use mathlib.Core.List.{Perm, append_assoc, append-nil}
use mathlib.Core.Path.{subst}
use system_design_lab.Prelude.{
  ℕ, zero, suc, ◌+◌, ◌≤◌, ◌<◌, String, true, false, none, some, List, [], ◌∷◌, ◌++◌, map, length,
  length-append, take, All, ◌≡◌, refl, sym, ap, ◌∙◌, inl, inr, eqb, eqb_iff, leb, ltb, ◌==◌,
  text_eq, arith, Bool-cases, Option-cases,
}
use system_design_lab.Prelude.Assoc.{is_some}
use system_design_lab.Gin.{Ctx, param}
use system_design_lab.Database.{Db, Track, PlaylistTrack, find_track}
use system_design_lab.Handlers.{
  Env, reply, problem, no_content, TrackRow, order_by, select, join_tracks,
}
use system_design_lab.Handlers.Playlists.{page, earlier, added_at, list_tracks}
use system_design_lab.Handlers.Cursor.{
  perm-order_by, length-order_by, smaller, IsAscending, IsDistinct, All-order_by, All-select,
  All-drop, All-front, order_by_ext, order_by-select, order_by-IsAscending, select_after,
}
use system_design_lab.Handlers.Pages.{row, split_two, map-append, last_page, full_page}

find_track_id : (id : ℕ) (ts : List Track) {t : Track} → find_track id ts ≡ some t → t.id ≡ id
unfolding find_track
find_track_id id [] e = cc
find_track_id id (x ∷ ts) {t = t} e = elim (Bool-cases (eqb x.id id)) [
  | inl here ↦
      let same : x ≡ t = ground (arith, e, here) in
      ap (λ t. t.id) (sym same) ∙ (eqb_iff x.id id).0 here
  | inr there ↦ find_track_id id ts {t = t} (ground (arith, e, there))
]

module _ (ts : List Track) where
  abbrev pub tracks_of : List PlaylistTrack → List Track
  tracks_of es = join_tracks (λ e. e.track_id) ts es

  abbrev HasTrack : PlaylistTrack → Type 0
  HasTrack e = is_some (find_track e.track_id ts) ≡ true

  join_found :
      (e : PlaylistTrack) (es : List PlaylistTrack)
      → HasTrack e
      → (t : Track) × (t.id ≡ e.track_id) × (tracks_of (e ∷ es) ≡ t ∷ tracks_of es)
  unfolding join_tracks
  join_found e es h = elim (Option-cases (find_track e.track_id ts)) [
    | inl missing ↦ absurd (ground (arith, h, missing))
    | inr (t, found) ↦ (t, find_track_id e.track_id ts found, rw (join_tracks, found))
  ]

  join-append : (es fs : List PlaylistTrack) → tracks_of (es ++ fs) ≡ tracks_of es ++ tracks_of fs
  unfolding join_tracks
  join-append [] fs = refl
  join-append (e ∷ es) fs = elim (Option-cases (find_track e.track_id ts)) [
    | inl missing ↦ rw (join_tracks, missing) (join-append es fs)
    | inr (t, found) ↦ rw (join_tracks, found) (ap (◌∷◌ t) (join-append es fs))
  ]

  length-join : (es : List PlaylistTrack) → All HasTrack es → length (tracks_of es) ≡ length es
  unfolding join_tracks
  length-join [] h = refl
  length-join (e ∷ es) h =
      let (t, same, found) = join_found e es h.0 in
      ap length found ∙ omega (arith, length-join es h.1)

abbrev pub entries_of : ℕ → Db → List PlaylistTrack
entries_of id db = select (λ e. eqb e.playlist_id id) db.playlist_tracks

-- The playlist of the request as the statements keep it: positions are 0, no two tracks were added
-- at the same time, the table has one row of each track, and all tracks are there. `print` writes a
-- UUID as PostgreSQL reads it.
pub record IsPaged (env : Env) (c : Ctx) (print : ℕ → String) (db : Db) (id : ℕ) : Type 0 where
  pub works : env.fails ≡ false
  pub names : env.cast (param c "id") ≡ some id
  pub reads : (t : ℕ) → env.cast (print t) ≡ some t
  pub given : (t : ℕ) → (print t == "") ≡ false
  pub level : All (λ e. e.position ≡ 0) (entries_of id db)
  pub distinct : IsDistinct (λ e. e.added_at) (entries_of id db)
  pub single :
      All (λ e. added_at id e.track_id db.playlist_tracks ≡ some e.added_at) (entries_of id db)
  pub joined : All (HasTrack db.tracks) (entries_of id db)

module _ (env : Env) (c : Ctx) (print : ℕ → String) (db : Db) where
  -- A client that asks for the first page, or the one after a cursor, and then for the page after
  -- each cursor that it is given, for at most so many pages.
  unfoldable pub read_pages : ℕ → String → List TrackRow
  read_pages zero after = []
  read_pages (suc n) after = elim (list_tracks env c after db) [
    | problem status message ↦ []
    | no_content ↦ []
    | reply status p ↦ p.items ++ elim p.next_cursor [ none ↦ [] | some t ↦ read_pages n (print t) ]
  ]

module _ (env : Env) (c : Ctx) (print : ℕ → String) (db : Db) (id : ℕ)
    (h : IsPaged env c print db id) where
  abbrev key : PlaylistTrack → ℕ
  key e = e.added_at

  abbrev sorted : List PlaylistTrack
  sorted = order_by (smaller key) (entries_of id db)

  same_order :
      (a b : PlaylistTrack) → a.position ≡ 0 → b.position ≡ 0 → earlier a b ≡ smaller key a b
  same_order a b p q = ground (arith, p, q)

  order_by-earlier :
      (es : List PlaylistTrack)
      → All (λ e. e.position ≡ 0) es
      → order_by earlier es ≡ order_by (smaller key) es
  order_by-earlier es level =
      order_by_ext (λ e. e.position ≡ 0) earlier (smaller key) es same_order level

  sorted-IsAscending : IsAscending key sorted
  sorted-IsAscending = order_by-IsAscending key (entries_of id db) h.distinct

  first_page : list_tracks env c "" db ≡ reply 200 (page (take 51 (tracks_of db.tracks sorted)))
  unfolding list_tracks
  first_page =
      rw (list_tracks, h.works, h.names)
        (ap (λ es. reply 200 (page (take 51 (tracks_of db.tracks es))))
          (order_by-earlier (entries_of id db) h.level))

  selected :
      (front : List PlaylistTrack) (e : PlaylistTrack) (rest : List PlaylistTrack)
      → sorted ≡ front ++ e ∷ rest
      → order_by earlier (select (λ x. ltb e.added_at x.added_at) (entries_of id db)) ≡ rest
  selected front e rest split =
      let p = λ (x : PlaylistTrack). ltb e.added_at x.added_at in
      order_by-earlier (select p (entries_of id db))
        (All-select (λ e. e.position ≡ 0) p (entries_of id db) h.level)
      ∙ order_by-select key p (entries_of id db) h.distinct
      ∙ ap (select p) split
      ∙ select_after key front e rest (subst (IsAscending key) split sorted-IsAscending)

  later_page :
      (front : List PlaylistTrack) (e : PlaylistTrack) (rest : List PlaylistTrack)
      → sorted ≡ front ++ e ∷ rest
      → list_tracks env c (print e.track_id) db
        ≡ reply 200 (page (take 51 (tracks_of db.tracks rest)))
  unfolding list_tracks
  later_page front e rest split =
      let single : All (λ e. added_at id e.track_id db.playlist_tracks ≡ some e.added_at)
          (front ++ e ∷ rest) =
        subst (All (λ e. added_at id e.track_id db.playlist_tracks ≡ some e.added_at)) split (
          All-order_by (λ e. added_at id e.track_id db.playlist_tracks ≡ some e.added_at)
            (smaller key) (entries_of id db) h.single) in
      let at =
        (All-drop (λ e. added_at id e.track_id db.playlist_tracks ≡ some e.added_at) front
          (e ∷ rest) single).0 in
      rw (list_tracks, h.works, h.names, h.given e.track_id, h.reads e.track_id, at)
        (ap (λ es. reply 200 (page (take 51 (tracks_of db.tracks es))))
          (selected front e rest split))

  -- One round of the client.
  read_last :
      (n : ℕ) (after : String) (items : List TrackRow)
      → list_tracks env c after db
        ≡ reply 200 (record { items = items; next_cursor = none; has_more = false })
      → read_pages env c print db (suc n) after ≡ items
  unfolding read_pages
  read_last n after items sent = rw (sent, read_pages) (append-nil items)

  read_more :
      (n : ℕ) (after : String) (items : List TrackRow) (t : ℕ)
      → list_tracks env c after db
        ≡ reply 200 (record { items = items; next_cursor = some t; has_more = true })
      → read_pages env c print db (suc n) after ≡ items ++ read_pages env c print db n (print t)
  unfolding read_pages
  read_more n after items t sent = rw (sent, read_pages)

  -- The page is full, with these entries on it and after it.
  read_full :
      (n : ℕ) (front : List PlaylistTrack) (e f : PlaylistTrack) (rest : List PlaylistTrack)
      (after : String)
      → list_tracks env c after db
        ≡ reply 200 (page (take 51 (tracks_of db.tracks (front ++ e ∷ f ∷ rest))))
      → length front ≡ 49
      → All (HasTrack db.tracks) (front ++ e ∷ f ∷ rest)
      → read_pages env c print db n (print e.track_id) ≡ map row (tracks_of db.tracks (f ∷ rest))
      → read_pages env c print db (suc n) after
        ≡ map row (tracks_of db.tracks (front ++ e ∷ f ∷ rest))
  read_full n front e f rest after sent full there more =
      let ts = db.tracks in
      let near = All-drop (HasTrack ts) front (e ∷ f ∷ rest) there in
      let (t, same, found) = join_found ts e (f ∷ rest) near.0 in
      let (u, same', found') = join_found ts f rest near.1.0 in
      let joined : tracks_of ts (front ++ e ∷ f ∷ rest)
          ≡ tracks_of ts front ++ t ∷ u ∷ tracks_of ts rest =
        join-append ts front (e ∷ f ∷ rest)
        ∙ ap (◌++◌ (tracks_of ts front)) (found ∙ ap (◌∷◌ t) found') in
      let items = map row (tracks_of ts front) ++ row t ∷ [] in
      let shown =
        sent
        ∙ ap (λ l. reply 200 (page (take 51 l))) joined
        ∙ ap (reply 200) (
            full_page (tracks_of ts front) t u (tracks_of ts rest)
              (length-join ts front (All-front (HasTrack ts) front (e ∷ f ∷ rest) there) ∙ full)) in
      read_more n after items t.id shown
      ∙ ap (λ x. items ++ read_pages env c print db n (print x)) same
      ∙ ap (◌++◌ items) (more ∙ ap (map row) found')
      ∙ append_assoc (map row (tracks_of ts front)) (row t ∷ []) (map row (u ∷ tracks_of ts rest))
      ∙ sym (map-append row (tracks_of ts front) (t ∷ u ∷ tracks_of ts rest))
      ∙ ap (map row) (sym joined)

  -- The page holds all that is left.
  read_short :
      (n : ℕ) (rest : List PlaylistTrack) (after : String)
      → list_tracks env c after db ≡ reply 200 (page (take 51 (tracks_of db.tracks rest)))
      → length rest ≤ 50
      → All (HasTrack db.tracks) rest
      → read_pages env c print db (suc n) after ≡ map row (tracks_of db.tracks rest)
  read_short n rest after sent short there =
      let last =
        last_page (tracks_of db.tracks rest)
          (omega (arith, length-join db.tracks rest there, short)) in
      read_last n after (map row (tracks_of db.tracks rest)) (sent ∙ ap (reply 200) last)

  -- What is read from a page on, where `rest` are the entries from it on.
  read_rest :
      (n : ℕ) (front rest : List PlaylistTrack) (after : String)
      → list_tracks env c after db ≡ reply 200 (page (take 51 (tracks_of db.tracks rest)))
      → sorted ≡ front ++ rest
      → length rest ≤ n
      → All (HasTrack db.tracks) rest
      → read_pages env c print db (suc n) after ≡ map row (tracks_of db.tracks rest)
  read_rest zero front rest after sent split fuel there =
      read_short 0 rest after sent (omega (arith, fuel)) there
  read_rest (suc n) front rest after sent split fuel there =
      elim (Bool-cases (leb (length rest) 50)) [
        | inl few ↦ read_short (suc n) rest after sent (ground (arith, few)) there
        | inr many ↦
            let long : 50 < length rest = ground (arith, many) in
            let (near, e, f, far, cut, full) = split_two 49 rest (omega (arith, long)) in
            let size : length rest ≡ 51 + length far =
              ap length cut ∙ length-append near (e ∷ f ∷ far) ∙ omega (arith, full) in
            let parted : sorted ≡ (front ++ near) ++ e ∷ f ∷ far =
              split ∙ ap (◌++◌ front) cut ∙ sym (append_assoc front near (e ∷ f ∷ far)) in
            let kept : All (HasTrack db.tracks) (near ++ e ∷ f ∷ far) =
              subst (All (HasTrack db.tracks)) cut there in
            let more =
              read_rest n ((front ++ near) ++ e ∷ []) (f ∷ far) (print e.track_id)
                (later_page (front ++ near) e (f ∷ far) parted)
                (parted ∙ sym (append_assoc (front ++ near) (e ∷ []) (f ∷ far)))
                (omega (arith, size, fuel))
                (All-drop (HasTrack db.tracks) near (e ∷ f ∷ far) kept).1 in
            let shown : list_tracks env c after db
                ≡ reply 200 (page (take 51 (tracks_of db.tracks (near ++ e ∷ f ∷ far)))) =
              sent ∙ ap (λ es. reply 200 (page (take 51 (tracks_of db.tracks es)))) cut in
            read_full (suc n) near e f far after shown full kept more
            ∙ ap (λ es. map row (tracks_of db.tracks es)) (sym cut)
      ]

  read_sorted :
      read_pages env c print db (suc (length (entries_of id db))) ""
      ≡ map row (tracks_of db.tracks sorted)
  read_sorted =
      read_rest (length (entries_of id db)) [] sorted "" first_page refl
        (omega (arith, length-order_by (smaller key) (entries_of id db)))
        (All-order_by (HasTrack db.tracks) (smaller key) (entries_of id db) h.joined)

  -- A client that reads a playlist from the first page on and follows the cursor of each page gets the
  -- tracks of all entries of the playlist, each entry once and in the order of addition, and is done
  -- after at most one page more than there are entries, however many they are: if the positions are 0,
  -- no two entries were added at the same time, the table has one row of each track of the playlist, the
  -- tracks are in the table, and no statement fails.
  pub read_pages_all :
      (es : List PlaylistTrack) × Perm es (entries_of id db)
      × IsAscending (λ e. e.added_at) es
      × (read_pages env c print db (suc (length (entries_of id db))) ""
          ≡ map row (tracks_of db.tracks es))
  read_pages_all =
      (sorted, perm-order_by (smaller key) (entries_of id db), sorted-IsAscending, read_sorted)
