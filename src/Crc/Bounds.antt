-- ===== src/Crc/Bounds.antt =====
-- The checksums have 32 bits.
use initramfstool.Base.{
  ℕ, zero, suc, ◌^◌, ◌<◌, ◌≡◌, refl, arith, Bool, true, ◌&&◌, List, [], ◌∷◌, ltb, get_or,
  bit_xor-lt,
}
use initramfstool.Crc.{crc32_with, crc32c}
use initramfstool.Crc.Tables.{crc32c_tab}

all_lt : ℕ → List ℕ → Bool
all_lt n [] = true
all_lt n (x ∷ xs) = ltb x n && all_lt n xs

get_or-lt : (n : ℕ) (xs : List ℕ) (i : ℕ) → 0 < n → all_lt n xs ≡ true → get_or xs i 0 < n
unfolding all_lt
get_or-lt n [] i h all = h
get_or-lt n (x ∷ xs) zero h all = ground arith
get_or-lt n (x ∷ xs) (suc i) h all = get_or-lt n xs i h (ground arith)

crc32_with-lt :
    (tab : List ℕ)
    → all_lt (2 ^ 32) tab ≡ true
    → (buf : List ℕ) (crc : ℕ) → crc < 2 ^ 32
    → crc32_with tab crc buf < 2 ^ 32
unfolding crc32_with
crc32_with-lt tab all [] crc h = h
crc32_with-lt tab all (b ∷ buf) crc h =
    crc32_with-lt tab all buf _
      (bit_xor-lt 32 _ _ (get_or-lt (2 ^ 32) tab _ (omega arith) all) (omega arith))

tab-lt : all_lt (2 ^ 32) crc32c_tab ≡ true
unfolding all_lt
tab-lt = refl

pub crc32c-lt : (crc : ℕ) (buf : List ℕ) → crc < 2 ^ 32 → crc32c crc buf < 2 ^ 32
unfolding crc32c
crc32c-lt crc buf = crc32_with-lt crc32c_tab tab-lt buf crc
