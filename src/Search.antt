-- ===== src/Search.antt =====
-- The client of OpenSearch, beatstream/internal/search/opensearch.go and document.go. Sending a
-- request and decoding a body are parameters; the body of a request is its JSON value.
pub mod Body
use Prim.Native.Char.{code}
use Prim.Native.String
use system_design_lab.Prelude.{
  ℕ, String, Bool, true, false, Option, none, some, List, [], ◌∷◌, map, leb, eqb, ◌==◌, text_eq,
  if◌then◌else◌, ◌&&◌,
}
use system_design_lab.Prelude.Texts.{◌<>◌}
use Body.{Json, object, array, text, number}

pub record TrackDocument : Type 0 where
  pub id : String
  pub title : String
  pub artist_name : String
  pub play_count : ℕ
  pub status : String

-- The score is a float, which is only passed on: it is a parameter of the type.
pub record TrackResult (F : Type 0) : Type 0 where
  pub id : String
  pub title : String
  pub artist_name : String
  pub score : F

pub data Method : Type 0 where
  put post : Method

pub record Request : Type 0 where
  pub method : Method
  pub url : String
  pub body : Json

pub record Response : Type 0 where
  pub status : ℕ
  pub body : String

-- What the client calls: `send` is none where the request fails; the two readers are none where the
-- body does not decode.
pub record Transport (F : Type 0) : Type 0 where
  pub send : Request → Option Response
  pub contains : String → String → Bool
  pub read_hits : String → Option (List (TrackResult F × F))
  pub read_suggest : String → Option (Option (List (List String)))

pub data Outcome (A : Type 0) : Type 0 where
  ok : A → Outcome A
  error : String → Outcome A

abbrev index_name : String
index_name = "tracks"

-- `strings.TrimRight(s, "/")`
unfoldable pub trim_slashes : String → String
trim_slashes String.[] = ""
trim_slashes (String.◌∷◌ c s) =
    let rest = trim_slashes s in if rest == "" && eqb (code c) b'/' then "" else String.◌∷◌ c rest

-- The endpoint that `New` keeps.
unfoldable pub new : String → String
unfolding trim_slashes
new endpoint = trim_slashes endpoint

abbrev field_type : String → Json
field_type name = object (("type", text name) ∷ [])

unfoldable pub mapping : Json
mapping = object (
    ("settings", object (("number_of_shards", number 1) ∷ ("number_of_replicas", number 0) ∷ []))
    ∷ (
      "mappings",
      object (
          (
            "properties",
            object (
                ("id", field_type "keyword")
                ∷ ("title", field_type "text")
                ∷ ("artist_name", field_type "text")
                ∷ ("play_count", field_type "long")
                ∷ ("status", field_type "keyword")
                ∷ ("suggest", field_type "completion")
                ∷ []),
          )
          ∷ []),
    )
    ∷ [])

unfoldable pub payload : TrackDocument → Json
payload doc = object (
    ("id", text doc.id)
    ∷ ("title", text doc.title)
    ∷ ("artist_name", text doc.artist_name)
    ∷ ("play_count", number doc.play_count)
    ∷ ("status", text doc.status)
    ∷ ("suggest", object (("input", array (text doc.title ∷ text doc.artist_name ∷ [])) ∷ []))
    ∷ [])

unfoldable pub search_query : String → ℕ → Json
search_query query limit = object (
    ("size", number limit)
    ∷ (
      "query",
      object (
          (
            "bool",
            object (
                (
                  "must",
                  array (
                      object (
                        (
                          "multi_match",
                          object (
                              ("query", text query)
                              ∷ ("fields", array (text "title^3" ∷ text "artist_name^2" ∷ []))
                              ∷ ("fuzziness", text "AUTO")
                              ∷ []),
                        )
                        ∷ [])
                      ∷ []),
                )
                ∷ (
                  "filter",
                  array (object (("term", object (("status", text "ready") ∷ [])) ∷ []) ∷ []),
                )
                ∷ []),
          )
          ∷ []),
    )
    ∷ ("sort", array (text "_score" ∷ object (("play_count", text "desc") ∷ []) ∷ []))
    ∷ [])

unfoldable pub suggest_query : String → ℕ → Json
suggest_query prefix limit = object (
    (
      "suggest",
      object (
          (
            "track-suggest",
            object (
                ("prefix", text prefix)
                ∷ (
                  "completion",
                  object (
                      ("field", text "suggest")
                      ∷ ("size", number limit)
                      ∷ ("skip_duplicates", Json.bool true)
                      ∷ []),
                )
                ∷ []),
          )
          ∷ []),
    )
    ∷ [])

abbrev pub index_url : String → String
index_url endpoint = endpoint <> ("/" <> index_name)

module _ {F : Type 0} (transport : Transport F) (endpoint : String) where
  -- An index that is there already is not an error.
  unfoldable pub ensure_index : Outcome Unit
  unfolding mapping
  ensure_index =
      elim (transport.send (record { method = put; url = index_url endpoint; body = mapping })) [
        | none ↦ error "create index"
        | some r ↦
            if eqb r.status 400
            then (if transport.contains r.body "resource_already_exists_exception"
                then ok tt
                else error "create index")
            else if leb 300 r.status
            then error "create index status"
            else ok tt
      ]

  unfoldable pub index : TrackDocument → Outcome Unit
  unfolding payload
  index doc =
      elim (transport.send (record {
        method = put;
        url = index_url endpoint <> ("/_doc/" <> doc.id);
        body = payload doc;
      })) [
        | none ↦ error "index doc"
        | some r ↦ if leb 300 r.status then error "index doc status" else ok tt
      ]

  abbrev with_score : TrackResult F × F → TrackResult F
  with_score (r, score) = record r { score = score }

  unfoldable pub search : String → ℕ → Outcome (List (TrackResult F))
  unfolding search_query
  search query limit =
      elim (transport.send (record {
        method = post;
        url = index_url endpoint <> "/_search";
        body = search_query query limit;
      })) [
        | none ↦ error "search"
        | some r ↦
            if leb 300 r.status then error "search status" else elim (transport.read_hits r.body) [
              | none ↦ error "decode search"
              | some hits ↦ ok (map with_score hits)
            ]
      ]

  -- The options of the first entry under "track-suggest", none without one.
  abbrev first_options : Option (List (List String)) → List String
  first_options none = []
  first_options (some []) = []
  first_options (some (options ∷ entries)) = options

  unfoldable pub autocomplete : String → ℕ → Outcome (List String)
  unfolding suggest_query
  autocomplete prefix limit =
      elim (transport.send (record {
        method = post;
        url = index_url endpoint <> "/_search";
        body = suggest_query prefix limit;
      })) [
        | none ↦ error "autocomplete"
        | some r ↦
            if leb 300 r.status
            then error "autocomplete status"
            else elim (transport.read_suggest r.body) [
              | none ↦ error "decode autocomplete"
              | some entries ↦ ok (first_options entries)
            ]
      ]
