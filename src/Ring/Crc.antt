-- ===== src/Ring/Crc.antt =====
-- `hash` of interview-prep/consistent-hashing/main.go: crc32.ChecksumIEEE over the bytes of a string.
use Prim.Native.Nat.{bit_xor}
use system_design_lab.Prelude.{
  ℕ, zero, suc, ◌/◌, ◌%◌, ◌≡◌, refl, String, List, [], ◌∷◌, eqb, if◌then◌else◌,
}
use system_design_lab.Prelude.Texts.{bytes}

-- One bit of the reflected polynomial division.
shift : ℕ → ℕ
shift c = if eqb (c % 2) 1 then bit_xor (c / 2) 0xEDB88320 else c / 2

shifts : ℕ → ℕ → ℕ
unfolding shift
shifts zero c = c
shifts (suc n) c = shifts n (shift c)

checksum_from : ℕ → List ℕ → ℕ
unfolding shifts
checksum_from c [] = c
checksum_from c (b ∷ bs) = checksum_from (shifts 8 (bit_xor c b)) bs

unfoldable pub hash : String → ℕ
unfolding checksum_from
hash s = bit_xor (checksum_from 0xFFFFFFFF (bytes s)) 0xFFFFFFFF

-- The check value of the checksum's specification.
hash_check : hash "123456789" ≡ 0xCBF43926
unfolding hash bytes
hash_check = refl
