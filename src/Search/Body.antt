-- ===== src/Search/Body.antt =====
-- The JSON values that beatstream/internal/search/opensearch.go sends, as Go maps and slices.
use system_design_lab.Prelude.{ℕ, String, Bool, List, [], ◌∷◌}

mutual
  pub data Json : Type 0 where
    text : String → Json
    number : ℕ → Json
    bool : Bool → Json
    of_values : Values → Json
    of_fields : Fields → Json

  pub data Values : Type 0 where
    no_value : Values
    value : Json → Values → Values

  pub data Fields : Type 0 where
    no_field : Fields
    field : String → Json → Fields → Fields

abbrev values : List Json → Values
values [] = no_value
values (v ∷ vs) = value v (values vs)

abbrev fields : List (String × Json) → Fields
fields [] = no_field
fields ((name, v) ∷ fs) = field name v (fields fs)

abbrev pub array : List Json → Json
array vs = of_values (values vs)

abbrev pub object : List (String × Json) → Json
object fs = of_fields (fields fs)
