-- ===== src/Dir/Bytes.antt =====
-- The bytes of a buffer: a function from the offset to the byte, with the little endian fields that
-- the source reads and writes through its structs.
use initramfstool.Base.{
  ℕ, zero, suc, ◌+◌, ◌*◌, ◌/◌, ◌%◌, ◌^◌, ◌<◌, ◌≤◌, ◌≡◌, ◌⊎◌, inl, inr, refl, ap₂, ◌∙◌, arith, Bool,
  true, false, ◌&&◌, List, [], ◌∷◌, ◌==◌, if◌then◌else◌, length, IsBytes,
}

abbrev pub Memory : Type 0
Memory = ℕ → ℕ

unfoldable pub put8 : Memory → ℕ → ℕ → Memory
put8 m p v q = if q == p then v % 256 else m q

unfoldable pub get16 : Memory → ℕ → ℕ
get16 m p = m p + 256 * m (p + 1)

unfoldable pub put16 : Memory → ℕ → ℕ → Memory
unfolding put8
put16 m p v = put8 (put8 m p v) (p + 1) (v / 256)

unfoldable pub get32 : Memory → ℕ → ℕ
unfolding get16
get32 m p = get16 m p + 65536 * get16 m (p + 2)

unfoldable pub put32 : Memory → ℕ → ℕ → Memory
unfolding put16
put32 m p v = put16 (put16 m p v) (p + 2) (v / 65536)

-- memcpy to offset `p`.
unfoldable pub copy : Memory → ℕ → List ℕ → Memory
copy m p [] = m
copy m p (b ∷ bs) = copy (put8 m p b) (p + 1) bs

-- `n` bytes from offset `p` on.
unfoldable pub slice : Memory → ℕ → ℕ → List ℕ
slice m p zero = []
slice m p (suc n) = m p ∷ slice m (p + 1) n

-- `memcmp(bytes, m + p, length bytes) == 0`.
unfoldable pub same_bytes : Memory → ℕ → List ℕ → Bool
same_bytes m p [] = true
same_bytes m p (b ∷ bs) = (b == m p) && same_bytes m (p + 1) bs

-- Two buffers have the same bytes from `p` to `q`.
abbrev pub SameOn : Memory → Memory → ℕ → ℕ → Type 0
SameOn m m' p q = (x : ℕ) → p ≤ x → x < q → m' x ≡ m x

abbrev pub SameOutside : Memory → Memory → ℕ → ℕ → Type 0
SameOutside m m' p q = (x : ℕ) → (x < p) ⊎ (q ≤ x) → m' x ≡ m x

-- A change inside a part is one inside the whole.
pub outside-wider :
    {m m' : Memory} (a b p q : ℕ) → p ≤ a → b ≤ q → SameOutside m m' a b → SameOutside m m' p q
outside-wider a b p q low high same x (inl h) = same x (inl (omega arith))
outside-wider a b p q low high same x (inr h) = same x (inr (omega arith))

put8-outside : (m : Memory) (p v : ℕ) → SameOutside m (put8 m p v) p (p + 1)
unfolding put8
put8-outside m p v x (inl h) = ground arith
put8-outside m p v x (inr h) = ground arith

pub put16-outside : (m : Memory) (p v : ℕ) → SameOutside m (put16 m p v) p (p + 2)
unfolding put16
put16-outside m p v x (inl h) = ground arith
put16-outside m p v x (inr h) = ground arith

pub put32-outside : (m : Memory) (p v : ℕ) → SameOutside m (put32 m p v) p (p + 4)
unfolding put32
put32-outside m p v x (inl h) = ground arith
put32-outside m p v x (inr h) = ground arith

pub get16-put16 : (m : Memory) (p v : ℕ) → v < 2 ^ 16 → get16 (put16 m p v) p ≡ v
unfolding get16 put16
get16-put16 m p v h = ground arith

pub get32-put32 : (m : Memory) (p v : ℕ) → v < 2 ^ 32 → get32 (put32 m p v) p ≡ v
unfolding get32 put32
get32-put32 m p v h = ground arith

pub get16-same : (m m' : Memory) (p : ℕ) → SameOn m m' p (p + 2) → get16 m' p ≡ get16 m p
unfolding get16
get16-same m m' p same = ground (arith, same p, same (p + 1))

pub get32-same : (m m' : Memory) (p : ℕ) → SameOn m m' p (p + 4) → get32 m' p ≡ get32 m p
unfolding get32
get32-same m m' p same =
    ground (arith, same p, same (p + 1), same (p + 2), same (p + 3), same (p + 2 + 1))

pub slice-same : (m m' : Memory) (p n : ℕ) → SameOn m m' p (p + n) → slice m' p n ≡ slice m p n
unfolding slice
slice-same m m' p zero same = refl
slice-same m m' p (suc n) same =
    ground (arith, same p, slice-same m m' (p + 1) n (λ x a b. same x (omega arith) (omega arith)))

pub copy-outside :
    (m : Memory) (p : ℕ) (bs : List ℕ) → SameOutside m (copy m p bs) p (p + length bs)
unfolding copy
copy-outside m p [] x h = refl
copy-outside m p (b ∷ bs) x (inl h) =
    copy-outside (put8 m p b) (p + 1) bs x (inl (omega arith)) ∙ put8-outside m p b x (inl h)
copy-outside m p (b ∷ bs) x (inr h) =
    copy-outside (put8 m p b) (p + 1) bs x (inr (omega arith))
    ∙ put8-outside m p b x (inr (omega arith))

pub slice-copy :
    (m : Memory) (p : ℕ) (bs : List ℕ) → IsBytes bs → slice (copy m p bs) p (length bs) ≡ bs
unfolding slice copy put8
slice-copy m p [] h = refl
slice-copy m p (b ∷ bs) h =
    ap₂ ◌∷◌ (copy-outside (put8 m p b) (p + 1) bs p (inl (omega arith)) ∙ ground (arith, h.0))
      (slice-copy (put8 m p b) (p + 1) bs h.1)

-- The comparison of a name that has the length of `bs`.
unfoldable pub same_name : List ℕ → List ℕ → Bool
same_name [] [] = true
same_name [] (b ∷ bs) = false
same_name (a ∷ xs) [] = false
same_name (a ∷ xs) (b ∷ bs) = (a == b) && same_name xs bs
