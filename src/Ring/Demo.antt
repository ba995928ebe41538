-- ===== src/Ring/Demo.antt =====
-- `main` of interview-prep/consistent-hashing/main.go, as the lines that it prints. A number of
-- thousandths is a percentage with one digit after the point.
use system_design_lab.Prelude.{
  ℕ, zero, suc, ◌+◌, ◌/◌, ◌%◌, String, Option, none, some, List, [], ◌∷◌, ◌++◌, map, ◌==◌, text_eq,
  if◌then◌else◌,
}
use system_design_lab.Prelude.Assoc.{Assoc, put}
use system_design_lab.Prelude.Texts.{◌<>◌, itoa, repeat, pad_left, pad_right}
use system_design_lab.Ring.{Ring, new_ring, add, get}
use system_design_lab.Prelude.Assoc
use mathlib.Core.Option

abbrev demo_nodes : List String
demo_nodes = "cache-1" ∷ "cache-2" ∷ "cache-3" ∷ "cache-4" ∷ "cache-5" ∷ []

unfoldable pub add_nodes : List String → Ring → Ring
unfolding add
add_nodes [] r = r
add_nodes (n ∷ ns) r = add_nodes ns (add r n)

abbrev pub track_key : ℕ → String
track_key i = "track:" <> itoa i

-- `m[k]` of a map to numbers.
abbrev pub or_zero : Option ℕ → ℕ
or_zero none = 0
or_zero (some n) = n

-- The nodes of the keys i, i + 1, …; none is a panic of `Get`.
unfoldable pub nodes_of : Ring → ℕ → ℕ → Option (List String)
unfolding get
nodes_of r i zero = some []
nodes_of r i (suc n) =
    let rest = nodes_of r (i + 1) n in
    elim (get r (track_key i)) [ none ↦ none | some node ↦ Option.map (λ ns. node ∷ ns) rest ]

unfoldable pub tally : List String → Assoc String ℕ → Assoc String ℕ
tally [] m = m
tally (n ∷ ns) m = tally ns (put m n (or_zero (Assoc.get m n) + 1))

abbrev pub distribution_line : Assoc String ℕ → String → String
distribution_line m n =
    let keys = or_zero (Assoc.get m n) in
    "  "
    <> (pad_right 10 n <> (" " <> (pad_left 3 (itoa keys) <> (" keys  " <> repeat (keys / 5) "█"))))

-- How many keys have another node than before.
unfoldable pub remapped : List String → List String → ℕ
remapped (a ∷ before) (b ∷ after) =
    let rest = remapped before after in if a == b then rest else rest + 1
remapped _ _ = 0

abbrev pub remapped_line : ℕ → String
remapped_line n =
    "Keys remapped: "
    <> (itoa n
        <> ("/1000 (" <> (itoa (n / 10) <> ("." <> (itoa (n % 10) <> "%) — expected ~17%")))))

abbrev pub report : List String → List String → List String
report before after =
    "Key distribution across 5 nodes (1000 keys, 150 vnodes each):"
    ∷ (map (distribution_line (tally before [])) demo_nodes
        ++ ("" ∷ "Adding cache-6..." ∷ remapped_line (remapped before after) ∷ []))

-- The nodes of the keys are looked up once for the two loops before the sixth node.
unfoldable pub main : Option (List String)
unfolding add_nodes nodes_of tally remapped
main =
    let ring = add_nodes demo_nodes (new_ring 150) in
    elim (nodes_of ring 0 1000) [
      | none ↦ none
      | some before ↦ Option.map (report before) (nodes_of (add ring "cache-6") 0 1000)
    ]
