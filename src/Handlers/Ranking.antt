-- ===== src/Handlers/Ranking.antt =====
-- What beatstream/internal/handler/recommendations.go recommends, and for how long.
use system_design_lab.Prelude.{
  ℕ, ◌*◌, String, Bool, true, false, none, some, List, [], ◌∷◌, All, map, elem, ◌≡◌, refl, ap, ◌∙◌,
  inl, inr, ◌⊎◌, leb, text_eq, number_eq, ==-refl, if◌then◌else◌, arith, Bool-cases,
}
use system_design_lab.Prelude.Texts.{◌<>◌}
use system_design_lab.Redis.{Redis}
use system_design_lab.Gin.{Ctx, get_key}
use system_design_lab.Database.{Db, Track, PlayEvent}
use system_design_lab.Worker.Queue.{Result, done, failed, consume}
use system_design_lab.Worker.Plays.{
  Delivered, handle, mark, consume-mark, Recorded, undone, committed, record_play-Recorded,
}
use system_design_lab.Handlers.{Env, Reply, reply, select, order_by, join_tracks}
use system_design_lab.Handlers.Tracks.{full_row}
use system_design_lab.Handlers.Order.{IsTop, take-order_by-IsTop}
use system_design_lab.Handlers.Recommendations.{
  SearchResponse, response, minute, cached, store, is_ready, plays, most_played, fresh_top,
  is_listener, count_artists, top_artists, is_suggested, fresh_for_you, uid_of, top_tracks, for_you,
}

module _ (R : Redis SearchResponse) where
  pub cached_fresh :
      (down : Bool) (key : String) (ttl : ℕ) (fresh : Reply SearchResponse) (s : R.State)
      → (down ≡ true) ⊎ (R.get s key ≡ none)
      → cached R down key ttl fresh s ≡ (fresh, store R down key ttl fresh s)
  unfolding cached
  cached_fresh true key ttl fresh s (inl gone) = refl
  cached_fresh false key ttl fresh s (inl gone) = cc
  cached_fresh true key ttl fresh s (inr empty) = refl
  cached_fresh false key ttl fresh s (inr empty) = rw (empty, cached)

  cached_hit :
      (key : String) (ttl : ℕ) (fresh : Reply SearchResponse) (s : R.State) {x : SearchResponse}
      → R.get s key ≡ some x
      → cached R false key ttl fresh s ≡ (reply 200 x, s)
  unfolding cached
  cached_hit key ttl fresh s e = rw (e, cached)

  -- An answer that was stored is given until its time is over, and a fresh one from then on.
  cached_later :
      (key : String) (ttl pause : ℕ) (x : SearchResponse) (fresh : Reply SearchResponse)
      (s : R.State)
      → let s' = R.wait pause (store R false key ttl (reply 200 x) s) in
        (cached R false key ttl fresh s').0 ≡ (if leb ttl pause then fresh else reply 200 x)
  unfolding store
  cached_later key ttl pause x fresh s =
      let written = R.set s key x in
      let there : R.get written key ≡ some x = simp (R.get-set, ==-refl) in
      let kept = R.expire written key ttl in
      let timed : R.ttl kept key ≡ some ttl =
        rw (R.ttl-expire written key key ttl x there) (simp ==-refl) in
      let found : R.get (R.wait pause kept) key ≡ (if leb ttl pause then none else some x) =
        R.get-wait kept pause key
        ∙ rw timed (
            ap (λ o. if leb ttl pause then none else o)
              (R.get-expire written key key ttl ∙ there)) in
      elim (Bool-cases (leb ttl pause)) [
        | inl over ↦ rw over (
            ap (λ r. r.0)
              (cached_fresh false key ttl fresh (R.wait pause kept) (inr (found ∙ rw over))))
        | inr valid ↦
            rw valid
              (ap (λ r. r.0) (cached_hit key ttl fresh (R.wait pause kept) (found ∙ rw valid)))
      ]

fresh_top_up :
    (env : Env) (db : Db)
    → env.fails ≡ false
    → fresh_top env db
      ≡ reply 200 (response (map full_row (most_played 20 (select is_ready db.tracks))))
unfolding fresh_top
fresh_top_up env db up = rw (up, fresh_top)

module _ (R : Redis SearchResponse) where
  -- With no answer in the cache, or without a cache, TopTracks sends the at most 20 most played of
  -- the ready tracks, in descending order of their plays.
  pub top_tracks-IsTop :
      (down : Bool) (env : Env) (db : Db) (s : R.State)
      → (down ≡ true) ⊎ (R.get s "recs:top" ≡ none)
      → env.fails ≡ false
      → (shown : List Track) × ((top_tracks R down env db s).0
          ≡ reply 200 (response (map full_row shown)))
        × IsTop plays 20 (select is_ready db.tracks) shown
  unfolding top_tracks fresh_top
  top_tracks-IsTop down env db s empty up = (
    most_played 20 (select is_ready db.tracks),
    rw (cached_fresh R down "recs:top" (5 * minute) (fresh_top env db) s empty, up),
    take-order_by-IsTop plays 20 (select is_ready db.tracks),
  )

  -- The answer that TopTracks found in the tables and stored is sent again until five minutes are
  -- over, whatever the tables are by then, and from then on the answer is what the tables give.
  pub top_tracks_later :
      (env env' : Env) (db db' : Db) (pause : ℕ) (s : R.State)
      → R.get s "recs:top" ≡ none
      → env.fails ≡ false
      → (top_tracks R false env' db' (R.wait pause (top_tracks R false env db s).1)).0
        ≡ (if leb (5 * minute) pause then fresh_top env' db' else fresh_top env db)
  unfolding top_tracks
  top_tracks_later env env' db db' pause s empty up =
      let x = response (map full_row (most_played 20 (select is_ready db.tracks))) in
      let answer : fresh_top env db ≡ reply 200 x = fresh_top_up env db up in
      rw (cached_fresh R false "recs:top" (5 * minute) (fresh_top env db) s (inr empty), answer)
        (cached_later R "recs:top" (5 * minute) pause x (fresh_top env' db') s)

-- No play in the table has a user.
abbrev pub IsUnheard : Db → Type 0
IsUnheard db = All (λ e. e.user_id ≡ none) db.play_events

handle-IsUnheard :
    {d : Delivered} {db db' : Db} {r : Result}
    → Recorded d.0 d.1 db r db'
    → IsUnheard db
    → IsUnheard db'
handle-IsUnheard (undone message) h = h
handle-IsUnheard (committed id names e here nobody) h = (nobody, h)

mark_state : (d : Delivered) (r : Result) (rest : List Delivered × Db) → (mark d r rest).1 ≡ rest.1
mark_state d done rest = refl
mark_state d (failed message) rest = refl

consume_state :
    (d : Delivered) (ds : List Delivered) (db : Db)
    → (consume handle (d ∷ ds) db).1 ≡ (consume handle ds (handle d db).1).1
consume_state d ds db =
    ap (λ r. r.1) (consume-mark d ds db)
    ∙ mark_state d (handle d db).0 (consume handle ds (handle d db).1)

consume-IsUnheard :
    (ds : List Delivered) (db : Db) → IsUnheard db → IsUnheard (consume handle ds db).1
unfolding consume
consume-IsUnheard [] db h = h
consume-IsUnheard (d ∷ ds) db h =
    rw (consume_state d ds db)
      (consume-IsUnheard ds (handle d db).1 (handle-IsUnheard (record_play-Recorded d.0 d.1 db) h))

no_listener :
    (user : ℕ) (es : List PlayEvent)
    → All (λ e. e.user_id ≡ none) es
    → select (is_listener user) es ≡ []
unfolding select
no_listener user [] h = refl
no_listener user (e ∷ es) h = ground (arith, h.0, no_listener user es h.1)

select_none : (p : Track → Bool) (ts : List Track) → ((t : Track) → p t ≡ false) → select p ts ≡ []
unfolding select
select_none p [] h = refl
select_none p (t ∷ ts) h = ground (arith, h t, select_none p ts h)

no_artist : (user : ℕ) (db : Db) → IsUnheard db → top_artists user db ≡ []
unfolding top_artists join_tracks count_artists order_by
no_artist user db h = rw (no_listener user db.play_events h)

not_suggested : (user : ℕ) (db : Db) → IsUnheard db → (t : Track) → is_suggested user db t ≡ false
unfolding elem
not_suggested user db h t = rw (no_artist user db h)

module _ (R : Redis SearchResponse) where
  -- From tables in which no play has a user, such as empty ones, whatever plays the analytics worker
  -- then records, ForYou recommends nothing to anyone, where it finds no answer in the cache: the
  -- worker records no play with its user.
  pub for_you_never :
      (ds : List Delivered) (db : Db) (down : Bool) (env : Env) (c : Ctx) (s : R.State)
      (uid : String) (user : ℕ)
      → IsUnheard db
      → uid_of (get_key c "user_id") ≡ some uid
      → env.cast uid ≡ some user
      → env.fails ≡ false
      → (down ≡ true) ⊎ (R.get s ("recs:foryou:" <> uid) ≡ none)
      → (for_you R down env c (consume handle ds db).1 s).0 ≡ reply 200 (response [])
  unfolding for_you fresh_for_you order_by
  for_you_never ds db down env c s uid user h who cast up empty =
      let db' = (consume handle ds db).1 in
      let nothing =
        select_none (is_suggested user db') db'.tracks
          (not_suggested user db' (consume-IsUnheard ds db h)) in
      let fresh : fresh_for_you env uid db' ≡ reply 200 (response []) =
        rw (up, fresh_for_you, cast, nothing) in
      rw
        (
          who,
          for_you,
          cached_fresh R down ("recs:foryou:" <> uid) (10 * minute) (fresh_for_you env uid db') s
              empty,
        )
        fresh
