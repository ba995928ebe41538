-- ===== src/Shortener/Base64.antt =====
-- base64.URLEncoding, which `shortCode` of interview-prep/url-shortener/main.go calls.
use system_design_lab.Prelude.{
  ℕ, ◌+◌, ◌-◌, ◌*◌, ◌/◌, ◌%◌, ◌<◌, ◌≡◌, List, [], ◌∷◌, ltb, eqb, if◌then◌else◌, arith,
}

-- The letters of the alphabet A-Z a-z 0-9 - _ by their index.
unfoldable pub symbol : ℕ → ℕ
symbol n =
    if ltb n 26
    then b'A' + n
    else if ltb n 52
    then b'a' + (n - 26)
    else if ltb n 62
    then b'0' + (n - 52)
    else if eqb n 62
    then b'-'
    else b'_'

-- Three bytes make four letters; one or two bytes at the end are padded.
unfoldable pub encode : List ℕ → List ℕ
unfolding symbol
encode [] = []
encode (a ∷ []) = symbol (a / 4) ∷ symbol (a % 4 * 16) ∷ b'=' ∷ b'=' ∷ []
encode (a ∷ b ∷ []) =
    symbol (a / 4) ∷ symbol (a % 4 * 16 + b / 16) ∷ symbol (b % 16 * 4) ∷ b'=' ∷ []
encode (a ∷ b ∷ c ∷ rest) =
    symbol (a / 4)
    ∷ symbol (a % 4 * 16 + b / 16)
    ∷ symbol (b % 16 * 4 + c / 64)
    ∷ symbol (c % 64)
    ∷ encode rest

pub symbol_inj : (m n : ℕ) → m < 64 → n < 64 → symbol m ≡ symbol n → m ≡ n
unfolding symbol
symbol_inj m n h k e = ground arith

-- The letters of three bytes determine the bytes.
pub group_inj :
    (a b c x y z : ℕ)
    → a < 256
    → b < 256
    → c < 256
    → x < 256
    → y < 256
    → z < 256
    → symbol (a / 4) ≡ symbol (x / 4)
    → symbol (a % 4 * 16 + b / 16) ≡ symbol (x % 4 * 16 + y / 16)
    → symbol (b % 16 * 4 + c / 64) ≡ symbol (y % 16 * 4 + z / 64)
    → symbol (c % 64) ≡ symbol (z % 64)
    → (a ≡ x) × (b ≡ y) × (c ≡ z)
group_inj a b c x y z ha hb hc hx hy hz e f g h =
    let e' = symbol_inj (a / 4) (x / 4) (omega arith) (omega arith) e in
    let f' = symbol_inj (a % 4 * 16 + b / 16) (x % 4 * 16 + y / 16) (omega arith) (omega arith) f in
    let g' = symbol_inj (b % 16 * 4 + c / 64) (y % 16 * 4 + z / 64) (omega arith) (omega arith) g in
    let h' = symbol_inj (c % 64) (z % 64) (omega arith) (omega arith) h in
    (omega arith, omega arith, omega arith)
