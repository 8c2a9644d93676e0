-- ===== src/Hash/Bounds.antt =====
-- What an index relies on: the hashes keep to their range, the buffer of words is filled exactly, and the
-- loop over the blocks of a name ends.
use initramfstool.Base.{
  ℕ, zero, suc, ◌+◌, ◌-◌, ◌*◌, ◌/◌, ◌%◌, ◌^◌, ◌<◌, ◌≤◌, ◌≡◌, refl, ap, ◌∙◌, arith, Bool, true, ◌||◌,
  Option, none, some, List, [], ◌∷◌, ◌++◌, ◌==◌, ltb, leb, if◌then◌else◌, length, length-append,
  take, drop, u32, bit_and, bit_or, bit_and_low, bit_and-mask, min, Bool-cases, inl, inr,
}
use initramfstool.Hash.{
  char_val, prep_chars, paddings, prep_hashbuf, hash_blocks, final_major, finish_hash, raw_hash,
  htree_hash,
}

-- The mask of all bits but the lowest.
masked : (a : ℕ) → bit_and a (2 ^ 32 - 2) ≡ a / 2 % 2 ^ 31 * 2
masked a =
    bit_and_low a (2 ^ 32 - 2)
    ∙ ap (λ (x : ℕ). x * 2 + min (a % 2) 0) (bit_and-mask 31 (a / 2))
    ∙ omega arith

-- A major hash: even, of 32 bits, and not the mark of the end.
abbrev pub IsMajor : ℕ → Type 0
IsMajor major = (major % 2 ≡ 0) × (major ≤ 2 ^ 32 - 4)

final_major-IsMajor : (a : ℕ) → IsMajor (final_major a)
unfolding final_major
final_major-IsMajor a = elim (Bool-cases (bit_and a (2 ^ 32 - 2) == u32 (2147483647 * 2))) [
  | inl e ↦ rw e (refl, omega arith)
  | inr e ↦ let other = rw (masked a) at e in rw (e, masked a) (omega arith, ground arith)
]

length-prep_chars :
    (unsigned_char : Bool) (padding i buf_val : ℕ) (src : List ℕ)
    → length (prep_chars unsigned_char padding i buf_val src).0 ≡ (i % 4 + length src) / 4
unfolding prep_chars
length-prep_chars unsigned_char padding i buf_val [] = omega arith
length-prep_chars unsigned_char padding i buf_val (b ∷ src) = elim (Bool-cases (i % 4 == 3)) [
  | inl e ↦
      let third : i % 4 ≡ 3 = ground arith in
      rw e (ap suc (length-prep_chars unsigned_char padding (i + 1) padding src) ∙ omega arith)
  | inr e ↦
      let before : i % 4 < 3 = ground arith in
      rw e (
        length-prep_chars unsigned_char padding (i + 1)
          (u32 (u32 ((if i % 4 == 0 then padding else buf_val) * 2 ^ 8) + char_val unsigned_char b))
          src
        ∙ omega arith)
]

length-paddings : (padding n : ℕ) → length (paddings padding n) ≡ n
unfolding paddings
length-paddings padding zero = refl
length-paddings padding (suc n) = ap suc (length-paddings padding n)

length-take-min : (n : ℕ) (xs : List ℕ) → length (take n xs) ≡ min n (length xs)
length-take-min zero xs = omega arith
length-take-min (suc n) [] = omega arith
length-take-min (suc n) (x ∷ xs) = omega (arith, length-take-min n xs)

length-drop : (n : ℕ) (xs : List ℕ) → length (drop n xs) ≡ length xs - n
length-drop zero xs = omega arith
length-drop (suc n) [] = omega arith
length-drop (suc n) (x ∷ xs) = omega (arith, length-drop n xs)

-- The loop over the blocks of a name needs no more rounds than the name has characters.
blocks-enough :
    (block : ℕ × ℕ × ℕ × ℕ → List ℕ → ℕ × ℕ × ℕ × ℕ) (dlen : ℕ) (unsigned_char : Bool) (f g : ℕ)
    (name : List ℕ) (hash : ℕ × ℕ × ℕ × ℕ)
    → 0 < dlen
    → length name ≤ f
    → length name ≤ g
    → hash_blocks block dlen unsigned_char f name hash
      ≡ hash_blocks block dlen unsigned_char g name hash
unfolding hash_blocks
blocks-enough block dlen unsigned_char zero zero name hash positive hf hg = refl
blocks-enough block dlen unsigned_char zero (suc g) name hash positive hf hg =
    let none : (length name == 0) ≡ true = ground arith in rw none refl
blocks-enough block dlen unsigned_char (suc f) zero name hash positive hf hg =
    let none : (length name == 0) ≡ true = ground arith in rw none refl
blocks-enough block dlen unsigned_char (suc f) (suc g) name hash positive hf hg =
    elim (Bool-cases (length name == 0)) [
      | inl e ↦ rw e refl
      | inr e ↦
          let left = length-drop dlen name in
          rw e (
            blocks-enough block dlen unsigned_char f g (drop dlen name)
              (block hash (prep_hashbuf name dlen unsigned_char)) positive (ground arith)
              (ground arith))
    ]

finish_hash-IsMajor : (raw : Option (ℕ × ℕ)) → IsMajor (finish_hash raw).1
unfolding finish_hash
finish_hash-IsMajor none = (refl, omega arith)
finish_hash-IsMajor (some (major, minor)) = final_major-IsMajor major

-- Every hash is even, of 32 bits and below the mark of the end of an index, for every name, seed and version.
pub htree_hash-IsMajor :
    (name : List ℕ) (seed : Option (ℕ × ℕ × ℕ × ℕ)) (hash_version : ℕ)
    → IsMajor (htree_hash name seed hash_version).1
unfolding htree_hash
htree_hash-IsMajor name seed hash_version =
    elim (Bool-cases (ltb (length name) 1 || ltb 255 (length name))) [
      | inl e ↦ rw e (refl, omega arith)
      | inr e ↦ rw e (finish_hash-IsMajor (raw_hash name seed hash_version))
    ]

-- The words after those that the characters fill.
length-filled :
    (dst : List ℕ) (dlen last padding : ℕ)
    → dlen % 4 ≡ 0
    → 4 * length dst ≤ dlen
    → length (
        dst
        ++ (if leb 4 (dlen - 4 * length dst)
            then last ∷ paddings padding ((dlen - 4 * length dst - 4) / 4)
            else []))
      ≡ dlen / 4
length-filled dst dlen last padding words fits = elim (Bool-cases (leb 4 (dlen - 4 * length dst))) [
  | inl e ↦ rw e (
      length-append dst (last ∷ paddings padding ((dlen - 4 * length dst - 4) / 4))
      ∙ ap (λ (n : ℕ). length dst + suc n)
          (length-paddings padding ((dlen - 4 * length dst - 4) / 4))
      ∙ ground arith)
  | inr e ↦ rw e (length-append dst [] ∙ ground arith)
]

-- The buffer of words is filled exactly, whatever the length of the name: its size is a multiple of four.
length-prep_hashbuf :
    (src : List ℕ) (dlen : ℕ) (unsigned_char : Bool)
    → dlen % 4 ≡ 0
    → length (prep_hashbuf src dlen unsigned_char) ≡ dlen / 4
unfolding prep_hashbuf
length-prep_hashbuf src dlen unsigned_char words =
    let slen = length src in
    let padding =
      bit_or (bit_or (bit_or slen (u32 (slen * 2 ^ 8))) (u32 (slen * 2 ^ 16)))
        (u32 (slen * 2 ^ 24)) in
    let taken = take (if ltb dlen slen then dlen else slen) src in
    let filled = length-prep_chars unsigned_char padding 0 padding taken in
    let few = length-take-min (if ltb dlen slen then dlen else slen) src in
    let p = prep_chars unsigned_char padding 0 padding taken in
    let least : length taken ≤ dlen = ground (arith, few) in
    length-filled p.0 dlen p.1 padding words (omega (arith, filled, least))
