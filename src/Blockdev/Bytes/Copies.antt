-- ===== src/Blockdev/Bytes/Copies.antt =====
-- Copies of bytes, and writes to the device, byte by byte.
use initramfstool.Base.{
  ℕ, zero, suc, ◌+◌, ◌-◌, ◌<◌, ◌≤◌, ◌≡◌, refl, ap, ◌∙◌, arith, true, false, ◌&&◌, List, [], ◌∷◌,
  ltb, leb, if◌then◌else◌, length, set, take, drop, get_or, length-set, get_or-set_self,
  get_or-set_ne, Bool-cases, inl, inr,
}
use native.Mathlib.Decide.{ℕ_discrete}
use initramfstool.Bdev.{read_span}
use initramfstool.Blockdev.Bytes.{copy_to}

pub length-copy_to :
    (buf : List ℕ) (at : ℕ) (bytes : List ℕ) → length (copy_to buf at bytes) ≡ length buf
unfolding copy_to
length-copy_to buf at [] = refl
length-copy_to buf at (b ∷ bytes) =
    length-copy_to (set buf at b) (at + 1) bytes ∙ length-set buf at b

next_byte :
    (b : ℕ) (bytes : List ℕ) (at i : ℕ)
    → at < i
    → get_or bytes (i - (at + 1)) 0 ≡ get_or (b ∷ bytes) (i - at) 0
next_byte b bytes at i h =
    let e : suc (i - (at + 1)) ≡ i - at = omega arith in ap (λ (n : ℕ). get_or (b ∷ bytes) n 0) e

-- One byte has been copied, and then the rest.
first :
    (buf : List ℕ) (at b : ℕ) (bytes : List ℕ) (i : ℕ)
    → at < length buf
    → (if leb (at + 1) i && ltb i (at + 1 + length bytes)
        then get_or bytes (i - (at + 1)) 0
        else get_or (set buf at b) i 0)
      ≡ (if leb at i && ltb i (at + length (b ∷ bytes))
          then get_or (b ∷ bytes) (i - at) 0
          else get_or buf i 0)
first buf at b bytes i h = elim (ℕ_discrete at i) [
  | yes e ↦
      let low : leb (at + 1) i ≡ false = ground arith in
      let high : (leb at i && ltb i (at + length (b ∷ bytes))) ≡ true = ground arith in
      let zeroth : i - at ≡ 0 = omega arith in
      rw (low, high, zeroth) (rw (← e) (get_or-set_self buf at b 0 h))
  | no ne ↦ elim (Bool-cases (leb (at + 1) i && ltb i (at + 1 + length bytes))) [
    | inl in_rest ↦
        let also : (leb at i && ltb i (at + length (b ∷ bytes))) ≡ true = ground arith in
        rw (in_rest, also) (next_byte b bytes at i (ground arith))
    | inr out ↦
        let also : (leb at i && ltb i (at + length (b ∷ bytes))) ≡ false = ground arith in
        rw (out, also) (get_or-set_ne buf at i b 0 ne)
  ]
]

pub get_or-copy_to :
    (buf : List ℕ) (at : ℕ) (bytes : List ℕ) (i : ℕ)
    → at + length bytes ≤ length buf
    → get_or (copy_to buf at bytes) i 0
      ≡ (if leb at i && ltb i (at + length bytes) then get_or bytes (i - at) 0 else get_or buf i 0)
unfolding copy_to
get_or-copy_to buf at [] i h = ground arith
get_or-copy_to buf at (b ∷ bytes) i h =
    get_or-copy_to (set buf at b) (at + 1) bytes i (omega (arith, length-set buf at b))
    ∙ first buf at b bytes i (omega arith)

pub get_or-read_span :
    (d : ℕ → ℕ) (start n i : ℕ) → i < n → get_or (read_span d start n) i 0 ≡ d (start + i)
unfolding read_span
get_or-read_span d start zero i h = absurd (omega arith)
get_or-read_span d start (suc n) zero h = let e : start ≡ start + 0 = omega arith in ap d e
get_or-read_span d start (suc n) (suc i) h =
    let e : start + 1 + i ≡ start + suc i = omega arith in
    get_or-read_span d (start + 1) n i (omega arith) ∙ ap d e

pub get_or-take : (n : ℕ) (xs : List ℕ) (i : ℕ) → i < n → get_or (take n xs) i 0 ≡ get_or xs i 0
get_or-take zero xs i h = absurd (omega arith)
get_or-take (suc n) [] i h = refl
get_or-take (suc n) (x ∷ xs) zero h = refl
get_or-take (suc n) (x ∷ xs) (suc i) h = get_or-take n xs i (omega arith)

pub get_or-drop : (n : ℕ) (xs : List ℕ) (i : ℕ) → get_or (drop n xs) i 0 ≡ get_or xs (n + i) 0
get_or-drop zero xs i = let e : i ≡ 0 + i = omega arith in ap (λ (n : ℕ). get_or xs n 0) e
get_or-drop (suc n) [] i = refl
get_or-drop (suc n) (x ∷ xs) i =
    let e : suc (n + i) ≡ suc n + i = omega arith in
    get_or-drop n xs i ∙ ap (λ (m : ℕ). get_or (x ∷ xs) m 0) e

pub length-take : (n : ℕ) (xs : List ℕ) → n ≤ length xs → length (take n xs) ≡ n
length-take zero xs h = refl
length-take (suc n) [] h = absurd (omega arith)
length-take (suc n) (x ∷ xs) h = ap suc (length-take n xs (omega arith))

pub length-drop : (n : ℕ) (xs : List ℕ) → length (drop n xs) ≡ length xs - n
length-drop zero xs = omega arith
length-drop (suc n) [] = omega arith
length-drop (suc n) (x ∷ xs) = omega (arith, length-drop n xs)
