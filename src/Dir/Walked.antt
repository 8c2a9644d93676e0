-- ===== src/Dir/Walked.antt =====
-- The walk of `ext4_dir_try_insert_entry` over the entries of a block.
use initramfstool.Base.{
  ℕ, zero, suc, ◌+◌, ◌-◌, ◌^◌, ◌<◌, ◌≤◌, ◌≡◌, inl, inr, refl, ◌∙◌, arith, Bool, true, not, ◌&&◌,
  List, [], ◌∷◌, Option, none, some, if◌then◌else◌, length, ◌==◌, ltb, leb, Bool-cases,
}
use initramfstool.Super.{Sblock, get_block_size, feature_ro_com, ro_com_metadata_csum}
use initramfstool.Dir.{
  InodeRef, Insert, inserted, no_space, get_inode, get_entry_len, get_inode_type, long_names,
  set_entry_len, write_entry, set_csum, is_free, has_space, reuse, split, insert_loop,
  dir_csum_type, tail_at, tail_len,
}
use initramfstool.Dir.Bytes.{Memory, SameOutside, put16-outside, outside-wider}
use initramfstool.Dir.Entries.{
  Entry, IsAt-same, IsChain, IsChain-same, IsBlock, room, chain-le, room-le, tail_fields,
}
use initramfstool.Dir.Written.{
  IsChild, written, write_entry-outside, write_entry-IsAt, set_entry_len-IsAt,
}
use initramfstool.Dir.Sizes.{size, required_len-eq, used_size-eq, size-le, free_space-eq}

-- An unused entry that is large enough, and a used one with room after its name.
abbrev pub reusable : ℕ → Entry → Bool
reusable need e = (e.inode == 0) && (not (e.type == dir_csum_type) && leb need e.entry_len)

abbrev pub splittable : ℕ → Entry → Bool
splittable need e = not (e.inode == 0) && leb need (e.entry_len - size e.name)

abbrev pub before : Entry → Option (List Entry) → Option (List Entry)
before e none = none
before e (some es) = some (e ∷ es)

-- The new entry, of a length that is given to it, in the first place that has `need` bytes.
unfoldable pub insert : (ℕ → Entry) → ℕ → List Entry → Option (List Entry)
insert new need [] = none
insert new need (e ∷ es) =
    let rest = before e (insert new need es) in
    if reusable need e
    then some (new e.entry_len ∷ es)
    else if splittable need e
    then some (record e { entry_len = size e.name } ∷ new (e.entry_len - size e.name) ∷ es)
    else rest

module _ (sb : Sblock) (ref child : InodeRef) (name : List ℕ) (m : Memory) where
  -- The walk from `p` ends as an insertion into the entries from `p` on.
  abbrev pub Fits : ℕ → Option (List Entry) → Insert → Type 0
  Fits p none r = r ≡ no_space
  Fits p (some es) r =
      (m' : Memory) × (r ≡ inserted (set_csum sb ref m'))
      × IsChain sb m' p (room sb) es
      × SameOutside m m' p (room sb)

  module _ {all : List Entry} (b : IsBlock sb m all) (c : IsChild child name) where
    abbrev pub run : ℕ → ℕ → Insert
    run fuel p = insert_loop fuel sb ref child name m p

    ends : (fuel p : ℕ) → 0 < fuel → get_block_size sb ≤ p → run fuel p ≡ no_space
    unfolding insert_loop
    ends zero p f h = absurd (omega arith)
    ends (suc fuel) p f h = ground arith

    at_tail :
        (fuel p : ℕ)
        → 1 < fuel
        → get_inode m p ≡ 0
        → get_inode_type sb m p ≡ dir_csum_type
        → get_entry_len m p ≡ tail_len
        → get_block_size sb ≤ p + tail_len
        → run fuel p ≡ no_space
    unfolding insert_loop is_free has_space
    at_tail zero p f unused typed len h = absurd (omega arith)
    at_tail (suc fuel) p f unused typed len h = ground (arith, ends fuel (p + get_entry_len m p))

    past : (fuel : ℕ) → get_block_size sb < room sb + fuel → run fuel (room sb) ≡ no_space
    unfolding get_inode get_entry_len get_inode_type long_names
    past fuel h = elim (Bool-cases (feature_ro_com sb ro_com_metadata_csum)) [
      | inl e ↦
          let (unused, len, _, typed) = tail_fields sb m (b.tail e) in
          let r : room sb ≡ tail_at sb = rw e refl in
          let large = b.large in
          simp e (
            at_tail fuel (tail_at sb) (omega arith) unused (ground (arith, b.typed e)) len
              (omega arith))
      | inr e ↦
          (let r : room sb ≡ get_block_size sb = rw e refl in
            simp e (ends fuel (get_block_size sb) (omega arith) (omega arith)))
    ]

    abbrev pub new : ℕ → Entry
    new len = written sb len child name

    cut-outside : (p len : ℕ) → SameOutside m (set_entry_len m p len) (p + 4) (p + 6)
    unfolding set_entry_len
    cut-outside p len x (inl h) = put16-outside m (p + 4) len x (inl h)
    cut-outside p len x (inr h) = put16-outside m (p + 4) len x (inr (omega arith))

    module _ (p : ℕ) (e : Entry) (es : List Entry) (i : IsChain sb m p (room sb) (e ∷ es)) where
      reuse-Fits :
          reusable (size name) e ≡ true
          → Fits p (some (new e.entry_len ∷ es)) (inserted (reuse sb ref child name m p))
      unfolding reuse
      reuse-Fits h =
          let (at, v, rest) = i in
          let end = chain-le sb m (p + e.entry_len) (room sb) es rest in
          let small = b.small in
          let fits : size name ≤ e.entry_len = ground arith in
          let m' = write_entry sb m p e.entry_len child name in
          let out = write_entry-outside sb m p e.entry_len child name in
          let len : e.entry_len < 2 ^ 16 = omega (arith, room-le b) in
          (
            m',
            rw at.entry_len refl,
            (
              write_entry-IsAt sb m p e.entry_len child name c len,
              record { fits = omega arith; aligned = v.aligned; short = c.short },
              IsChain-same sb m m' (p + e.entry_len) (room sb) es
                  (λ x h k. out x (inr (omega arith))) rest,
            ),
            outside-wider p (p + 8 + length name) p (room sb) (omega arith) (omega arith) out,
          )

      split-Fits :
          splittable (size name) e ≡ true
          → Fits p
              (some (record e { entry_len = size e.name } ∷ new (e.entry_len - size e.name) ∷ es))
              (inserted (split sb ref child name m p))
      unfolding split
      split-Fits h =
          let (at, v, rest) = i in
          let end = chain-le sb m (p + e.entry_len) (room sb) es rest in
          let small = b.small in
          let len : e.entry_len < 2 ^ 16 = omega (arith, room-le b) in
          let sz = size e.name in
          let le = size-le sb m p e at v in
          let fits : size name ≤ e.entry_len - sz = ground arith in
          let cut = set_entry_len m p sz in
          let m' = write_entry sb cut (p + sz) (e.entry_len - sz) child name in
          let short = c.short in
          let out = write_entry-outside sb cut (p + sz) (e.entry_len - sz) child name in
          let shorter = cut-outside p sz in
          let aligned = v.aligned in
          let next : p + sz + (e.entry_len - sz) ≡ p + e.entry_len = omega arith in
          (
            m',
            rw (used_size-eq sb m p e at v, free_space-eq sb m p e at v len) refl,
            (
              IsAt-same sb cut m' p (record e { entry_len = sz })
                  (λ x j k. out x (inl (omega arith)))
                  (set_entry_len-IsAt sb m p sz e (omega arith) at),
              record { fits = omega arith; aligned = omega arith; short = v.short },
              (
                write_entry-IsAt sb cut (p + sz) (e.entry_len - sz) child name c (omega arith),
                record { fits = omega arith; aligned = omega arith; short = c.short },
                rw next (
                    IsChain-same sb m m' (p + e.entry_len) (room sb) es
                      (λ x j k. out x (inr (omega arith)) ∙ shorter x (inr (omega arith))) rest),
              ),
            ),
            λ x j.
                outside-wider (p + sz) (p + sz + 8 + length name) p (room sb) (omega arith)
                  (omega arith) out x j
                ∙ outside-wider (p + 4) (p + 6) p (room sb) (omega arith) (omega arith) shorter x j,
          )

      skip-Fits :
          (fuel : ℕ) (es? : Option (List Entry))
          → Fits (p + e.entry_len) es? (run fuel (p + e.entry_len))
          → Fits p (before e es?) (run fuel (p + e.entry_len))
      skip-Fits fuel none f = f
      skip-Fits fuel (some es') (m', done, rest, same) =
          let v = i.1.fits in
          let end = chain-le sb m' (p + e.entry_len) (room sb) es' rest in
          (
            m',
            done,
            (IsAt-same sb m m' p e (λ x h k. same x (inl (omega arith))) i.0, i.1, rest),
            outside-wider (p + e.entry_len) (room sb) p (room sb) (omega arith) (omega arith) same,
          )

      is_free-eq : is_free sb name m p ≡ reusable (size name) e
      unfolding is_free
      is_free-eq =
          let a = i.0 in rw (a.inode, a.type, a.entry_len, required_len-eq name c.short) refl

      has_space-eq : has_space sb name m p ≡ splittable (size name) e
      unfolding has_space
      has_space-eq =
          let end = chain-le sb m (p + e.entry_len) (room sb) es i.2 in
          let small = b.small in
          rw
            (
              i.0.inode,
              required_len-eq name c.short,
              free_space-eq sb m p e i.0 i.1 (omega (arith, room-le b)),
            )
            refl

      in_block : p < get_block_size sb
      in_block =
          let f = i.1.fits in
          omega (arith, room-le b, chain-le sb m (p + e.entry_len) (room sb) es i.2)

      step :
          (fuel : ℕ)
          → Fits (p + e.entry_len) (insert new (size name) es) (run fuel (p + e.entry_len))
          → Fits p (insert new (size name) (e ∷ es)) (run (suc fuel) p)
      unfolding insert insert_loop
      step fuel f =
          let inside : ltb p (get_block_size sb) ≡ true = (let k = in_block in ground arith) in
          rw (inside, is_free-eq, has_space-eq, i.0.entry_len)
            (elim (Bool-cases (reusable (size name) e)) [
              | inl h ↦ rw h (reuse-Fits h)
              | inr h ↦ elim (Bool-cases (splittable (size name) e)) [
                | inl k ↦ rw (h, k) (split-Fits k)
                | inr k ↦ rw (h, k) (skip-Fits fuel (insert new (size name) es) f)
              ]
            ])

    pub walk :
        (fuel p : ℕ) (es : List Entry)
        → IsChain sb m p (room sb) es
        → get_block_size sb < p + fuel
        → Fits p (insert new (size name) es) (run fuel p)
    unfolding insert
    walk fuel p [] i h = rw i (past fuel (omega arith))
    walk zero p (e ∷ es) i h = absurd (let k = in_block p e es i in omega arith)
    walk (suc fuel) p (e ∷ es) i h =
        let f = i.1.fits in step p e es i fuel (walk fuel (p + e.entry_len) es i.2 (omega arith))
