-- ===== src/Dir/Found.antt =====
-- The search of a block finds what a search of its entries finds.
use initramfstool.Base.{
  ℕ, zero, suc, ◌+◌, ◌<◌, ◌≤◌, ◌≡◌, inl, inr, refl, ap, arith, Bool, true, false, not, ◌&&◌, List,
  [], ◌∷◌, if◌then◌else◌, length, ◌==◌, Bool-cases, ==_iff,
}
use initramfstool.Super.{Sblock, get_block_size, feature_ro_com, ro_com_metadata_csum}
use initramfstool.Fs.Monad.{Result, ok, err}
use initramfstool.Dir.{
  get_inode, get_entry_len, is_named, find_loop, find_in_block, enoent, tail_at, tail_len,
}
use initramfstool.Dir.Bytes.{Memory, slice, same_bytes, same_name}
use initramfstool.Dir.Entries.{Entry, IsAt, IsChain, IsBlock, room, chain-le, tail_fields, room-le}

-- A used entry with the name.
abbrev pub has_name : List ℕ → Entry → Bool
has_name name e = not (e.inode == 0) && same_name name e.name

-- The offset of the first used entry with the name, where the first entry is at `p`.
unfoldable pub lookup : ℕ → List ℕ → List Entry → Result ℕ
lookup p name [] = err enoent
lookup p name (e ∷ es) =
    let rest = lookup (p + e.entry_len) name es in if has_name name e then ok p else rest

length-same_name : (xs ys : List ℕ) → same_name xs ys ≡ true → length xs ≡ length ys
unfolding same_name
length-same_name [] [] h = refl
length-same_name [] (b ∷ ys) h = cc
length-same_name (a ∷ xs) [] h = cc
length-same_name (a ∷ xs) (b ∷ ys) h = ground (arith, length-same_name xs ys)

-- The comparison of the code, on a name of the length that was compared first.
same_bytes-slice :
    (m : Memory) (p : ℕ) (name : List ℕ)
    → same_bytes m p name ≡ same_name name (slice m p (length name))
unfolding same_bytes same_name slice
same_bytes-slice m p [] = refl
same_bytes-slice m p (b ∷ name) = rw (same_bytes-slice m (p + 1) name) refl

same_name_long : (xs ys : List ℕ) → (length ys == length xs) ≡ false → same_name xs ys ≡ false
same_name_long xs ys h = ground (arith, length-same_name xs ys)

is_named-eq :
    (sb : Sblock) (m : Memory) (p : ℕ) (e : Entry) (name : List ℕ)
    → IsAt sb m p e
    → is_named sb m p name ≡ has_name name e
unfolding is_named
is_named-eq sb m p e name a = elim (Bool-cases (length e.name == length name)) [
  | inl k ↦
      let l : length e.name ≡ length name = (==_iff _ _).0 k in
      rw (a.inode, a.name_len, k, same_bytes-slice m (p + 8) name, ← l, a.name) refl
  | inr k ↦ rw (a.inode, a.name_len, k, same_name_long name e.name k) refl
]

lookup-past :
    (sb : Sblock) (m : Memory) (p stop : ℕ) (es : List Entry) (name : List ℕ)
    → IsChain sb m p stop es
    → stop < p + length name
    → lookup p name es ≡ err enoent
unfolding lookup
lookup-past sb m p stop [] name c h = refl
lookup-past sb m p stop (e ∷ es) name c h =
    let f = c.1.fits in
    ground (
      arith,
      chain-le sb m (p + e.entry_len) stop es c.2,
      length-same_name name e.name,
      lookup-past sb m (p + e.entry_len) stop es name c.2,
    )

module _ (sb : Sblock) (m : Memory) (name : List ℕ) {es : List Entry} (b : IsBlock sb m es) where
  ends : (fuel p : ℕ) → get_block_size sb ≤ p → find_loop fuel sb name m p ≡ err enoent
  unfolding find_loop
  ends zero p h = refl
  ends (suc fuel) p h = ground arith

  -- The tail is not used.
  at_tail :
      (fuel p : ℕ)
      → get_inode m p ≡ 0
      → get_entry_len m p ≡ tail_len
      → get_block_size sb ≤ p + tail_len
      → find_loop fuel sb name m p ≡ err enoent
  unfolding find_loop is_named
  at_tail zero p unused len h = refl
  at_tail (suc fuel) p unused len h = ground (arith, ends fuel (p + get_entry_len m p))

  past : (fuel : ℕ) → find_loop fuel sb name m (room sb) ≡ err enoent
  unfolding get_inode get_entry_len
  past fuel = elim (Bool-cases (feature_ro_com sb ro_com_metadata_csum)) [
    | inl e ↦
        let (unused, len, _, _) = tail_fields sb m (b.tail e) in
        simp e (at_tail fuel (tail_at sb) unused len (omega arith))
    | inr e ↦ simp e (ends fuel (get_block_size sb) (omega arith))
  ]

  walk :
      (fuel p : ℕ) (rest : List Entry)
      → IsChain sb m p (room sb) rest
      → get_block_size sb ≤ p + fuel
      → find_loop fuel sb name m p ≡ lookup p name rest
  unfolding find_loop lookup
  walk fuel p [] c h = rw c (past fuel)
  walk zero p (e ∷ rest) c h =
      let f = c.1.fits in
      absurd (omega (arith, room-le b, chain-le sb m (p + e.entry_len) (room sb) rest c.2))
  walk (suc fuel) p (e ∷ rest) c h =
      let f = c.1.fits in
      let n = c.0.entry_len in
      ground (
        arith,
        is_named-eq sb m p e name c.0,
        room-le b,
        chain-le sb m (p + e.entry_len) (room sb) rest c.2,
        lookup-past sb m p (room sb) (e ∷ rest) name c,
        ap (λ (t : ℕ). find_loop fuel sb name m (p + t)) n,
        walk fuel (p + e.entry_len) rest c.2,
      )

  -- The search of a well-formed block for a name gives the offset of the first used entry with that
  -- name, and ENOENT where its entries have none.
  pub find_in_block-lookup : find_in_block sb name m ≡ lookup 0 name es
  unfolding find_in_block
  find_in_block-lookup = walk (get_block_size sb) 0 es b.chain (omega arith)

-- Whatever the bytes are, the fuel is enough: more of it changes nothing.
find_loop-enough :
    (sb : Sblock) (name : List ℕ) (m : Memory) (f g p : ℕ)
    → get_block_size sb ≤ p + f
    → get_block_size sb ≤ p + g
    → find_loop f sb name m p ≡ find_loop g sb name m p
unfolding find_loop
find_loop-enough sb name m zero zero p h k = refl
find_loop-enough sb name m zero (suc g) p h k = ground arith
find_loop-enough sb name m (suc f) zero p h k = ground arith
find_loop-enough sb name m (suc f) (suc g) p h k =
    ground (arith, find_loop-enough sb name m f g (p + get_entry_len m p))
