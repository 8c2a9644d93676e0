-- ===== src/Hash.antt =====
-- The hash of a file name in an indexed directory: SharpExt4/lwext4/src/ext4_hash.c. A name is the list
-- of its bytes, which is as long as `len` says; the pointers are not NULL, but for the seed, which is
-- optional. Words are numbers of 32 bits, and the arrays `hash` and `data` are lists of them.
pub mod Bounds
pub mod Tests
use initramfstool.Base.{
  ℕ, zero, suc, ◌+◌, ◌-◌, ◌*◌, ◌/◌, ◌%◌, ◌^◌, Bool, true, false, not, ◌&&◌, ◌||◌, Option, none,
  some, List, [], ◌∷◌, ◌++◌, ◌==◌, ltb, leb, if◌then◌else◌, length, get_or, take, drop, u32,
  bit_and, bit_or, bit_xor,
}
use initramfstool.Super.{sub32}

-- The MD4 functions F, G and H, and ROTATE_LEFT.
unfoldable pub md4_f : ℕ → ℕ → ℕ → ℕ
md4_f x y z = bit_or (bit_and x y) (bit_and (2 ^ 32 - 1 - x) z)

unfoldable pub md4_g : ℕ → ℕ → ℕ → ℕ
md4_g x y z = bit_or (bit_or (bit_and x y) (bit_and x z)) (bit_and y z)

unfoldable pub md4_h : ℕ → ℕ → ℕ → ℕ
md4_h x y z = bit_xor (bit_xor x y) z

unfoldable pub rotate_left : ℕ → ℕ → ℕ
rotate_left x n = bit_or (u32 (x * 2 ^ n)) (x / 2 ^ (32 - n))

-- The transformations FF, GG and HH: the new value of their first argument.
unfoldable pub ff : ℕ → ℕ → ℕ → ℕ → ℕ → ℕ → ℕ
ff a b c d x s = rotate_left (u32 (a + md4_f b c d + x)) s

unfoldable pub gg : ℕ → ℕ → ℕ → ℕ → ℕ → ℕ → ℕ
gg a b c d x s = rotate_left (u32 (a + md4_g b c d + x + 1518500249)) s

unfoldable pub hh : ℕ → ℕ → ℕ → ℕ → ℕ → ℕ → ℕ
hh a b c d x s = rotate_left (u32 (a + md4_h b c d + x + 1859775393)) s

-- Four transformations of `a`, `d`, `c` and `b`, on four words and with four rotations.
unfoldable pub four :
    (ℕ → ℕ → ℕ → ℕ → ℕ → ℕ → ℕ) → ℕ × ℕ × ℕ × ℕ → ℕ × ℕ × ℕ × ℕ → ℕ × ℕ × ℕ × ℕ → ℕ × ℕ × ℕ × ℕ
four step hash words rotations =
    let (a, b, c, d) = hash in
    let (w0, w1, w2, w3) = words in
    let (s0, s1, s2, s3) = rotations in
    let a1 = step a b c d w0 s0 in
    let d1 = step d a1 b c w1 s1 in
    let c1 = step c d1 a1 b w2 s2 in let b1 = step b c1 d1 a1 w3 s3 in (a1, b1, c1, d1)

unfoldable pub half_md4 : ℕ × ℕ × ℕ × ℕ → List ℕ → ℕ × ℕ × ℕ × ℕ
half_md4 hash words =
    let w : ℕ → ℕ = λ i. get_or words i 0 in
    let h1 = four ff hash (w 0, w 1, w 2, w 3) (3, 7, 11, 19) in
    let h2 = four ff h1 (w 4, w 5, w 6, w 7) (3, 7, 11, 19) in
    let h3 = four gg h2 (w 1, w 3, w 5, w 7) (3, 5, 9, 13) in
    let h4 = four gg h3 (w 0, w 2, w 4, w 6) (3, 5, 9, 13) in
    let h5 = four hh h4 (w 3, w 7, w 2, w 6) (3, 9, 11, 15) in
    let (a, b, c, d) = four hh h5 (w 1, w 5, w 0, w 4) (3, 9, 11, 15) in
    let (x, y, z, t) = hash in (u32 (x + a), u32 (y + b), u32 (z + c), u32 (t + d))

-- The rounds of the Tiny Encryption Algorithm from round `i` on.
unfoldable pub tea_rounds : ℕ → ℕ → List ℕ → ℕ × ℕ → ℕ × ℕ
tea_rounds zero i words xy = xy
tea_rounds (suc n) i words xy =
    let w : ℕ → ℕ = λ k. get_or words k 0 in
    let sum = u32 (i * 2654435769) in
    let (x, y) = xy in
    let x1 = u32 (
      x
      + bit_xor (bit_xor (u32 (u32 (y * 2 ^ 4) + w 0)) (u32 (y + sum))) (u32 (y / 2 ^ 5 + w 1))) in
    let y1 = u32 (
      y
      + bit_xor (bit_xor (u32 (u32 (x1 * 2 ^ 4) + w 2)) (u32 (x1 + sum)))
          (u32 (x1 / 2 ^ 5 + w 3))) in
    tea_rounds n (i + 1) words (x1, y1)

unfoldable pub tea : ℕ × ℕ × ℕ × ℕ → List ℕ → ℕ × ℕ × ℕ × ℕ
tea hash words =
    let (h0, h1, h2, h3) = hash in
    let (x, y) = tea_rounds 16 1 words (h0, h1) in (u32 (h0 + x), u32 (h1 + y), h2, h3)

-- A byte as an unsigned or a signed character, in a word.
unfoldable pub char_val : Bool → ℕ → ℕ
char_val unsigned_char b = if unsigned_char || ltb b 128 then b else 2 ^ 32 - 256 + b

unfoldable pub legacy_loop : Bool → List ℕ → ℕ → ℕ → ℕ
legacy_loop unsigned_char [] h1 h2 = h1
legacy_loop unsigned_char (b ∷ name) h1 h2 =
    let h0 = u32 (h2 + bit_xor h1 (u32 (char_val unsigned_char b * 7152373))) in
    legacy_loop unsigned_char name (if leb (2 ^ 31) h0 then sub32 h0 2147483647 else h0) h1

unfoldable pub legacy_hash : Bool → List ℕ → ℕ
legacy_hash unsigned_char name = u32 (legacy_loop unsigned_char name 312737325 934013177 * 2)

-- The words that the characters fill from character `i` on, and `buf_val` after them.
unfoldable pub prep_chars : Bool → ℕ → ℕ → ℕ → List ℕ → List ℕ × ℕ
prep_chars unsigned_char padding i buf_val [] = ([], buf_val)
prep_chars unsigned_char padding i buf_val (b ∷ src) =
    let start = if i % 4 == 0 then padding else buf_val in
    let val = u32 (u32 (start * 2 ^ 8) + char_val unsigned_char b) in
    let full = i % 4 == 3 in
    let (dst, last) =
      prep_chars unsigned_char padding (i + 1) (if full then padding else val) src in
    ((if full then val ∷ dst else dst), last)

unfoldable pub paddings : ℕ → ℕ → List ℕ
paddings padding zero = []
paddings padding (suc n) = padding ∷ paddings padding n

-- `dlen` counts down as the words are written; `src` has `slen` characters.
unfoldable pub prep_hashbuf : List ℕ → ℕ → Bool → List ℕ
prep_hashbuf src dlen unsigned_char =
    let slen = length src in
    let padding =
      bit_or (bit_or (bit_or slen (u32 (slen * 2 ^ 8))) (u32 (slen * 2 ^ 16)))
        (u32 (slen * 2 ^ 24)) in
    let len = if ltb dlen slen then dlen else slen in
    let (dst, buf_val) = prep_chars unsigned_char padding 0 padding (take len src) in
    let left = dlen - 4 * length dst in
    dst ++ (if leb 4 left then buf_val ∷ paddings padding ((left - 4) / 4) else [])

-- `while (len > 0)`, by blocks of `dlen` characters; a round for each character is enough.
unfoldable pub hash_blocks :
    (ℕ × ℕ × ℕ × ℕ → List ℕ → ℕ × ℕ × ℕ × ℕ) → ℕ → Bool → ℕ → List ℕ → ℕ × ℕ × ℕ × ℕ → ℕ × ℕ × ℕ × ℕ
hash_blocks block dlen unsigned_char zero name hash = hash
hash_blocks block dlen unsigned_char (suc fuel) name hash =
    let rest =
      hash_blocks block dlen unsigned_char fuel (drop dlen name)
        (block hash (prep_hashbuf name dlen unsigned_char)) in
    if length name == 0 then hash else rest

abbrev pub first_hash : Option (ℕ × ℕ × ℕ × ℕ) → ℕ × ℕ × ℕ × ℕ
first_hash none = (1732584193, 4023233417, 2562383102, 271733878)
first_hash (some seed) = seed

-- The switch on the version: the major and the minor hash.
unfoldable pub raw_hash : List ℕ → Option (ℕ × ℕ × ℕ × ℕ) → ℕ → Option (ℕ × ℕ)
raw_hash name seed hash_version =
    let unsigned_char = leb 3 hash_version in
    let (t0, t1, t2, t3) = hash_blocks tea 16 unsigned_char (length name) name (first_hash seed) in
    let (m0, m1, m2, m3) =
      hash_blocks half_md4 32 unsigned_char (length name) name (first_hash seed) in
    if hash_version == 2 || hash_version == 5
    then some (t0, t1)
    else if hash_version == 0 || hash_version == 3
    then some (legacy_hash unsigned_char name, 0)
    else if hash_version == 1 || hash_version == 4
    then some (m1, m2)
    else none

abbrev pub enotsup : ℕ
enotsup = 95

-- The lowest bit is cut off, and the value that ends an index is avoided.
unfoldable pub final_major : ℕ → ℕ
final_major major =
    let even = bit_and major (2 ^ 32 - 2) in
    if even == u32 (2147483647 * 2) then u32 (2147483646 * 2) else even

unfoldable pub finish_hash : Option (ℕ × ℕ) → ℕ × ℕ × ℕ
finish_hash none = (enotsup, 0, 0)
finish_hash (some (major, minor)) = (0, final_major major, minor)

-- The result, the major and the minor hash.
unfoldable pub htree_hash : List ℕ → Option (ℕ × ℕ × ℕ × ℕ) → ℕ → ℕ × ℕ × ℕ
htree_hash name seed hash_version =
    if ltb (length name) 1 || ltb 255 (length name)
    then (enotsup, 0, 0)
    else finish_hash (raw_hash name seed hash_version)
