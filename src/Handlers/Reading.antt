-- ===== src/Handlers/Reading.antt =====
-- The reader of bytes in beatstream/internal/handler/tracks.go, read until its end.
use system_design_lab.Prelude.{
  ℕ, zero, suc, ◌+◌, ◌-◌, ◌≤◌, ◌<◌, false, Option, none, some, List, [], ◌∷◌, ◌++◌, length, take,
  drop, ◌≡◌, refl, sym, ap, inl, inr, leb, leb→le, arith, Bool-cases,
}
use system_design_lab.Handlers.Stream.{BytesReader, new_bytes_reader, read}

-- Reads into buffers of `n` bytes until io.EOF, as io.ReadAll does, in at most `rounds` calls: what
-- was read, or none if io.EOF has not come.
unfoldable pub read_until : ℕ → ℕ → BytesReader → Option (List ℕ)
read_until zero n r = none
read_until (suc rounds) n r =
    let (got, r') = read r n in
    let rest = read_until rounds n r' in
    elim got [
      | none ↦ some []
      | some chunk ↦ elim rest [ none ↦ none | some more ↦ some (chunk ++ more) ]
    ]

drop_nil : (b : ℕ) → drop {A = ℕ} b [] ≡ []
drop_nil zero = refl
drop_nil (suc b) = refl

drop-add : (a b : ℕ) (xs : List ℕ) → drop (a + b) xs ≡ drop b (drop a xs)
drop-add zero b xs = let e : 0 + b ≡ b = omega arith in rw e
drop-add (suc a) b [] = let e : suc a + b ≡ suc (a + b) = omega arith in rw e (sym (drop_nil b))
drop-add (suc a) b (x ∷ xs) =
    let e : suc a + b ≡ suc (a + b) = omega arith in rw e (drop-add a b xs)

take-append-rest : (n : ℕ) (xs : List ℕ) → take n xs ++ drop (length (take n xs)) xs ≡ xs
take-append-rest zero xs = refl
take-append-rest (suc n) [] = refl
take-append-rest (suc n) (x ∷ xs) = ap (◌∷◌ x) (take-append-rest n xs)

drop_end : (n : ℕ) (xs : List ℕ) → length xs ≤ n → drop n xs ≡ []
drop_end zero [] h = refl
drop_end zero (x ∷ xs) h = absurd (omega arith)
drop_end (suc n) [] h = refl
drop_end (suc n) (x ∷ xs) h = drop_end n xs (omega arith)

some_taken : (n o : ℕ) (xs : List ℕ) → 0 < n → o < length xs → 1 ≤ length (take n (drop o xs))
some_taken zero o xs h l = absurd (omega arith)
some_taken (suc n) zero [] h l = absurd (omega arith)
some_taken (suc n) zero (x ∷ xs) h l = omega arith
some_taken (suc n) (suc o) [] h l = absurd (omega arith)
some_taken (suc n) (suc o) (x ∷ xs) h l = some_taken (suc n) o xs h (omega arith)

module _ (r : BytesReader) (n : ℕ) (more : leb (length r.bytes) r.offset ≡ false) where
  read_chunk : (read r n).0 ≡ some (take n (drop r.offset r.bytes))
  unfolding read
  read_chunk = rw (more, read)

  read_rest :
      (read r n).1 ≡ record r { offset = r.offset + length (take n (drop r.offset r.bytes)) }
  unfolding read
  read_rest = rw (more, read)

read_until_lem :
    (rounds n : ℕ) (r : BytesReader)
    → 0 < n
    → length r.bytes - r.offset < rounds
    → read_until rounds n r ≡ some (drop r.offset r.bytes)
unfolding read_until read
read_until_lem zero n r h fuel = absurd (omega arith)
read_until_lem (suc rounds) n r h fuel = elim (Bool-cases (leb (length r.bytes) r.offset)) [
  | inl over ↦
      rw (read_until, read, over) (ap some (sym (drop_end r.offset r.bytes (leb→le _ _ over))))
  | inr more ↦
      let got = take n (drop r.offset r.bytes) in
      let r' : BytesReader = record r { offset = r.offset + length got } in
      let progress = some_taken n r.offset r.bytes h (ground (arith, more)) in
      let rest = read_until_lem rounds n r' h (ground (arith, fuel, progress, more)) in
      rw (read_until, read_chunk r n more, read_rest r n more, rest)
        (ap some (
          rw (drop-add r.offset (length got) r.bytes) (take-append-rest n (drop r.offset r.bytes))))
]

-- With any buffer that is not empty, reading until io.EOF ends, after at most one call more than
-- there are bytes, and yields all of the bytes in their order.
pub read_until-new_bytes_reader :
    (bytes : List ℕ) (n : ℕ)
    → 0 < n
    → read_until (suc (length bytes)) n (new_bytes_reader bytes) ≡ some bytes
read_until-new_bytes_reader bytes n h =
    read_until_lem (suc (length bytes)) n (new_bytes_reader bytes) h (omega arith)
