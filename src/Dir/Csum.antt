-- ===== src/Dir/Csum.antt =====
-- The checksum of a directory block: `ext4_dir_set_csum` and `ext4_dir_csum_verify`.
use initramfstool.Base.{
  ℕ, ◌+◌, ◌^◌, ◌<◌, ◌≤◌, ◌≡◌, inl, inr, refl, ◌∙◌, arith, true, List, some, Bool-cases, ==-self,
}
use initramfstool.Super.{Sblock, get_block_size, feature_ro_com, ro_com_metadata_csum}
use initramfstool.Super.Csum.{crc32_init}
use initramfstool.Crc.Bounds.{crc32c-lt}
use initramfstool.Inode.Fields.{get_generation}
use initramfstool.Fs.Csum.{le32}
use initramfstool.Dir.{
  InodeRef, set_csum, put_csum, get_tail, dir_csum, csum_verify, csum_matches, tail_at,
}
use initramfstool.Dir.Bytes.{
  Memory, SameOn, SameOutside, put32, slice, put32-outside, get32-put32, get32-same, get16-same,
  slice-same,
}
use initramfstool.Dir.Entries.{Entry, IsChain, IsChain-same, IsBlock, room, room-le}

module _ (sb : Sblock) (ref : InodeRef) (m : Memory) where
  dir_csum-lt : (size : ℕ) → dir_csum sb ref m size < 2 ^ 32
  unfolding dir_csum
  dir_csum-lt size = crc32c-lt _ (slice m 0 size) (
      crc32c-lt _ (le32 (get_generation ref.inode))
        (crc32c-lt _ (le32 ref.index) (crc32c-lt crc32_init sb.uuid (omega arith))))

module _ (sb : Sblock) (ref : InodeRef) (m : Memory) where
  -- The tail is still a tail.
  get_tail-same :
      (m' : Memory) → SameOn m m' (tail_at sb) (tail_at sb + 8) → get_tail sb m' ≡ get_tail sb m
  unfolding get_tail
  get_tail-same m' same =
      rw
        (
          get32-same m m' (tail_at sb) (λ x h k. same x h (omega arith)),
          get16-same m m' (tail_at sb + 4) (λ x h k. same x (omega arith) (omega arith)),
          same (tail_at sb + 6) (omega arith) (omega arith),
          same (tail_at sb + 7) (omega arith) (omega arith),
        )
        refl

  abbrev sealed : Memory
  sealed = put32 m (tail_at sb + 8) (dir_csum sb ref m (tail_at sb))

  sealed-outside : SameOutside m sealed (tail_at sb + 8) (tail_at sb + 8 + 4)
  sealed-outside = put32-outside m (tail_at sb + 8) (dir_csum sb ref m (tail_at sb))

  sealed-verifies :
      get_tail sb m ≡ some (tail_at sb) → csum_matches sb ref sealed (get_tail sb sealed) ≡ true
  unfolding csum_matches dir_csum
  sealed-verifies t =
      rw
        (
          get_tail-same sealed (λ x h k. sealed-outside x (inl k)),
          t,
          get32-put32 m (tail_at sb + 8) (dir_csum sb ref m (tail_at sb))
              (dir_csum-lt sb ref m (tail_at sb)),
          slice-same m sealed 0 (tail_at sb) (λ x h k. sealed-outside x (inl (omega arith))),
        )
        (==-self _)

  -- Setting the checksum of a block keeps its entries and what is past the block, and the block
  -- verifies then.
  set_csum-IsBlock :
      {es : List Entry}
      → IsBlock sb m es
      → IsBlock sb (set_csum sb ref m) es
        × (csum_verify sb ref (set_csum sb ref m) ≡ true)
        × ((x : ℕ) → get_block_size sb ≤ x → set_csum sb ref m x ≡ m x)
  unfolding csum_verify set_csum put_csum
  set_csum-IsBlock b = elim (Bool-cases (feature_ro_com sb ro_com_metadata_csum)) [
    | inl e ↦
        let t = b.tail e in
        let large = b.large in
        let below = room-tail e in
        simp (e, t)
          (
            record {
              chain =
                  IsChain-same sb m sealed 0 (room sb) _
                    (λ x h k. sealed-outside x (inl (omega arith))) b.chain;
              tail = λ _. get_tail-same sealed (λ x h k. sealed-outside x (inl k)) ∙ t;
              typed = b.typed;
              large = b.large;
              small = b.small;
            },
            sealed-verifies t,
            λ x h. sealed-outside x (inr (omega arith)),
          )
    | inr e ↦ simp e (b, refl, λ x h. refl)
  ]
    where
      room-tail : feature_ro_com sb ro_com_metadata_csum ≡ true → room sb ≡ tail_at sb
      room-tail e = rw e refl

module _ (sb : Sblock) (ref : InodeRef) (m : Memory) where
  -- The result has the entries `es`, verifies, and is as before past the block.
  pub record IsResult (es : List Entry) (m' : Memory) : Type 0 where
    pub block : IsBlock sb m' es
    pub verifies : csum_verify sb ref m' ≡ true
    pub outside : (x : ℕ) → get_block_size sb ≤ x → m' x ≡ m x

  -- New entries in their place make a block again, and its checksum is set last.
  pub changed-IsResult :
      {es : List Entry} (new : List Entry) (m1 : Memory)
      → IsBlock sb m es
      → IsChain sb m1 0 (room sb) new
      → SameOutside m m1 0 (room sb)
      → IsResult new (set_csum sb ref m1)
  changed-IsResult new m1 b chain same =
      let low = room-le b in
      let sound : IsBlock sb m1 new = record {
        chain = chain;
        tail = λ e.
            let r : room sb ≡ tail_at sb = rw e refl in
            get_tail-same sb ref m m1 (λ x h k. same x (inr (omega arith))) ∙ b.tail e;
        typed = b.typed;
        large = b.large;
        small = b.small;
      } in
      let (block, verifies, past) = set_csum-IsBlock sb ref m1 sound in
      record {
        block = block;
        verifies = verifies;
        outside = λ x h. past x h ∙ same x (inr (omega arith));
      }
