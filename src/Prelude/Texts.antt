-- ===== src/Prelude/Texts.antt =====
-- Text as Go writes it: decimal numbers, and the bytes of a string.
use Prim.Native.Char.{Char, code}
use mathlib.Core.Bool.{Bool, true, false, ◌&&◌, ◌||◌}
use mathlib.Core.Option
use mathlib.Core.Option.{Option, none, some}
use system_design_lab.Prelude.Classes.{◌==◌, text_eq}
use Prim.Native.Nat.{ℕ, zero, suc, ◌+◌, ◌-◌, ◌/◌, ◌%◌}
use Prim.Native.String
use Prim.Native.String.{String}
use mathlib.Core.Path.{◌≡◌, refl}
use mathlib.Core.List.{List, [], ◌∷◌, ◌++◌}
use system_design_lab.Prelude.Tests.{ltb, leb, eqb, if◌then◌else◌}
use system_design_lab.Prelude.Lists.{length}

infixr 65 ◌<>◌
abbrev pub ◌<>◌ : String → String → String
s <> t = String.◌++◌ s t

abbrev pub codes : String → List ℕ
codes String.[] = []
codes (String.◌∷◌ c s) = code c ∷ codes s

digit : ℕ → String
digit zero = "0"
digit (suc zero) = "1"
digit (suc (suc zero)) = "2"
digit (suc (suc (suc zero))) = "3"
digit (suc (suc (suc (suc zero)))) = "4"
digit (suc (suc (suc (suc (suc zero))))) = "5"
digit (suc (suc (suc (suc (suc (suc zero)))))) = "6"
digit (suc (suc (suc (suc (suc (suc (suc zero))))))) = "7"
digit (suc (suc (suc (suc (suc (suc (suc (suc zero)))))))) = "8"
digit _ = "9"

-- A number below 10 ^ fuel in decimal.
print_fuel : ℕ → ℕ → String
unfolding digit
print_fuel zero n = ""
print_fuel (suc fuel) n =
    let front = print_fuel fuel (n / 10) in if ltb n 10 then digit n else front <> digit (n % 10)

-- `%d` and strconv.Itoa at a non-negative int64, which has at most 19 digits.
unfoldable pub itoa : ℕ → String
unfolding print_fuel
itoa n = print_fuel 20 n

-- The UTF-8 encoding of a code point.
utf8 : ℕ → List ℕ
utf8 c =
    if ltb c 0x80
    then c ∷ []
    else if ltb c 0x800
    then (0xC0 + c / 64) ∷ (0x80 + c % 64) ∷ []
    else if ltb c 0x10000
    then (0xE0 + c / 4096) ∷ (0x80 + c / 64 % 64) ∷ (0x80 + c % 64) ∷ []
    else (0xF0 + c / 262144) ∷ (0x80 + c / 4096 % 64) ∷ (0x80 + c / 64 % 64) ∷ (0x80 + c % 64) ∷ []

-- `[]byte(s)`
unfoldable pub bytes : String → List ℕ
unfolding utf8
bytes String.[] = []
bytes (String.◌∷◌ c s) = utf8 (code c) ++ bytes s

-- strings.TrimPrefix where the prefix is there.
unfoldable pub strip_prefix : String → String → Option String
strip_prefix s String.[] = some s
strip_prefix String.[] (String.◌∷◌ p ps) = none
strip_prefix (String.◌∷◌ c s) (String.◌∷◌ p ps) =
    let rest = strip_prefix s ps in if eqb (code c) (code p) then rest else none

abbrev pub has_prefix : String → String → Bool
has_prefix s p = elim (strip_prefix s p) [ none ↦ false | some rest ↦ true ]

-- strings.TrimPrefix
abbrev pub trim_prefix : String → String → String
trim_prefix s p = elim (strip_prefix s p) [ none ↦ s | some rest ↦ rest ]

abbrev extend : Char → List String → List String
extend c [] = (String.◌∷◌ c String.[]) ∷ []
extend c (part ∷ parts) = String.◌∷◌ c part ∷ parts

-- strings.Split at one character.
unfoldable pub split : ℕ → String → List String
split sep String.[] = "" ∷ []
split sep (String.◌∷◌ c s) =
    let parts = split sep s in if eqb (code c) sep then "" ∷ parts else extend c parts

-- strings.Join
unfoldable pub join : String → List String → String
join sep [] = ""
join sep (part ∷ []) = part
join sep (part ∷ next ∷ parts) = part <> (sep <> join sep (next ∷ parts))

-- unicode.IsSpace
unfoldable pub is_space : ℕ → Bool
is_space c =
    leb 9 c && leb c 13
    || eqb c 32
    || eqb c 0x85
    || eqb c 0xA0
    || eqb c 0x1680
    || leb 0x2000 c && leb c 0x200A
    || eqb c 0x2028
    || eqb c 0x2029
    || eqb c 0x202F
    || eqb c 0x205F
    || eqb c 0x3000

unfoldable pub trim_left : String → String
unfolding is_space
trim_left String.[] = ""
trim_left (String.◌∷◌ c s) =
    let rest = trim_left s in if is_space (code c) then rest else String.◌∷◌ c s

-- A text of spaces alone becomes empty.
unfoldable pub trim_right : String → String
unfolding is_space
trim_right String.[] = ""
trim_right (String.◌∷◌ c s) =
    let rest = trim_right s in if rest == "" && is_space (code c) then "" else String.◌∷◌ c rest

-- strings.TrimSpace
unfoldable pub trim_space : String → String
unfolding trim_left trim_right
trim_space s = trim_right (trim_left s)

-- `s[:len(s)-1]` for a text that ends in an ASCII character; `none` is the panic on the empty text.
unfoldable pub drop_last : String → Option String
drop_last String.[] = none
drop_last (String.◌∷◌ c String.[]) = some ""
drop_last (String.◌∷◌ c (String.◌∷◌ d s)) = Option.map (String.◌∷◌ c) (drop_last (String.◌∷◌ d s))

-- The character at an index, or another one past the end.
nth_char : String → ℕ → Char → Char
nth_char String.[] n c = c
nth_char (String.◌∷◌ d s) zero c = d
nth_char (String.◌∷◌ d s) (suc n) c = nth_char s n c

lower_char : Char → Char
unfolding nth_char
lower_char c =
    if leb b'A' (code c) && leb (code c) b'Z'
    then nth_char "abcdefghijklmnopqrstuvwxyz" (code c - b'A') c
    else c

-- strings.ToLower on ASCII, of which HTTP methods consist.
unfoldable pub to_lower : String → String
unfolding lower_char
to_lower String.[] = ""
to_lower (String.◌∷◌ c s) = String.◌∷◌ (lower_char c) (to_lower s)

itoa_digits : itoa 1050 ≡ "1050"
unfolding itoa
itoa_digits = refl

split_path : split b'/' "playlists/:id/tracks" ≡ "playlists" ∷ ":id" ∷ "tracks" ∷ []
unfolding split
split_path = refl

trimmed : trim_space "  https://a.example " ≡ "https://a.example"
unfolding trim_space
trimmed = refl

-- `s` n times.
unfoldable pub repeat : ℕ → String → String
repeat zero s = ""
repeat (suc n) s = s <> repeat n s

-- The verbs %nd and %-ns of fmt: spaces up to a width, before or after the text.
unfoldable pub pad_left : ℕ → String → String
unfolding repeat
pad_left n s = repeat (n - length (codes s)) " " <> s

unfoldable pub pad_right : ℕ → String → String
unfolding repeat
pad_right n s = s <> repeat (n - length (codes s)) " "
