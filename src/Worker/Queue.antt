-- ===== src/Worker/Queue.antt =====
-- The consumer and the producer of beatstream/internal/queue/kafka.go.
use system_design_lab.Prelude.{
  Bool, ◌++◌, if◌then◌else◌, String, Option, none, some, List, [], ◌∷◌, ◌≡◌, refl, inl, inr, ◌⊎◌,
}

-- What a handler returns: nil or an error.
pub data Result : Type 0 where
  done : Result
  failed : String → Result

pub Result-cases : (r : Result) → (r ≡ done) ⊎ ((message : String) × (r ≡ failed message))
Result-cases done = inl refl
Result-cases (failed message) = inr (message, refl)

-- One poll's records in their order: the handler runs on each, and those for which it returns nil
-- are marked for the commit.
unfoldable pub consume : {R S : Type 0} → (R → S → Result × S) → List R → S → List R × S
consume handler [] s = ([], s)
consume handler (r ∷ rs) s =
    let (result, s1) = handler r s in
    let (marked, s2) = consume handler rs s1 in
    elim result [ done ↦ (r ∷ marked, s2) | failed message ↦ (marked, s2) ]

pub record Message : Type 0 where
  pub topic : String
  pub key : String
  pub value : String

-- `Producer.Publish`: the JSON text of a payload is sent and answered. `marshal` is none where there is
-- no text, and `produce` is `ProduceSync` with its first error.
unfoldable pub publish :
    {V S : Type 0}
    → (V → Option String)
    → (Message → S → Result × S)
    → String
    → String
    → V
    → S
    → Result × S
publish marshal produce topic key payload s = elim (marshal payload) [
  | none ↦ (failed "marshal", s)
  | some text ↦ produce (record { topic = topic; key = key; value = text }) s
]

-- What `PollFetches` returns: whether the context has ended by then, and the records.
pub record Fetches (R : Type 0) : Type 0 where
  pub ended : Bool
  pub records : List R

-- `Consumer.Consume`: a poll after the context has ended is dropped with its records, and no other
-- follows.
unfoldable pub consume_until :
    {R S : Type 0} → (R → S → Result × S) → List (Fetches R) → S → List R × S
unfolding consume
consume_until handler [] s = ([], s)
consume_until handler (p ∷ ps) s =
    if p.ended
    then ([], s)
    else let (marked, s1) = consume handler p.records s in
      let (later, s2) = consume_until handler ps s1 in (marked ++ later, s2)
