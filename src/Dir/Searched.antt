-- ===== src/Dir/Searched.antt =====
-- A search of a directory of many blocks on a device that does not fail.
use initramfstool.Base.{
  ℕ, zero, suc, ◌+◌, ◌-◌, ◌<◌, ◌≤◌, ◌≡◌, ◌≢◌, refl, sym, ◌∙◌, arith, true, false, List, [], ◌∷◌,
  ◌==◌, if◌then◌else◌,
}
use initramfstool.Super.{Sblock}
use initramfstool.Fs.Monad.{Result, ok, err}
use initramfstool.Dir.{get_inode, find_in_block}
use initramfstool.Dir.Bytes.{Memory}
use initramfstool.Dir.Entries.{Entry, IsBlock, IsChain, room}
use initramfstool.Dir.Found.{lookup, find_in_block-lookup}
use initramfstool.Dir.Numbers.{number_of, number_at, number_in-eq}
use initramfstool.Dir.Blocks.{
  Store, Layer, block_get, block_set, find_here, find_round, find_blocks, find_linear, total_blocks,
}

-- The first `n` blocks of the directory are at `place`, with the entries `es`.
abbrev pub HasBlocks : Sblock → Layer → (ℕ → Memory) → ℕ → (ℕ → ℕ) → (ℕ → List Entry) → Type 0
HasBlocks sb l blocks n place es =
    (i : ℕ) → i < n → (l.dblk_idx i ≡ ok (place i)) × IsBlock sb (blocks (place i)) (es i)

-- The inode of the name in the first of the `n` blocks from `i` on that has it, or 0.
unfoldable pub number_among : List ℕ → (ℕ → List Entry) → ℕ → ℕ → ℕ
number_among name es zero i = 0
number_among name es (suc n) i =
    let rest = number_among name es n (i + 1) in
    let here = number_of name (es i) in if here == 0 then rest else here

abbrev pub found_number : Store → Result (ℕ × ℕ) → ℕ
found_number s (ok (fblock, de)) = get_inode (s.blocks fblock) de
found_number s (err e) = 0

-- A reference is kept at an entry that was found.
abbrev pub kept : Result (ℕ × ℕ) → ℕ
kept (ok p) = 1
kept (err e) = 0

lookup-used :
    (sb : Sblock) (m : Memory) (name : List ℕ) (p stop de : ℕ) (es : List Entry)
    → IsChain sb m p stop es
    → lookup p name es ≡ ok de
    → number_of name es ≢ 0
unfolding lookup number_of
lookup-used sb m name p stop de [] c h = cc
lookup-used sb m name p stop de (e ∷ es) c h =
    ground (arith, lookup-used sb m name (p + e.entry_len) stop de es c.2)

block_get-quiet :
    (s : Store) → s.outcomes ≡ [] → block_get s ≡ (ok tt, record s { held = s.held + 1 })
unfolding block_get
block_get-quiet s quiet = simp quiet

block_set-quiet :
    (s : Store) → s.outcomes ≡ [] → block_set s ≡ (ok tt, record s { held = s.held - 1 })
unfolding block_set
block_set-quiet s quiet = simp quiet

module _ (sb : Sblock) (name : List ℕ) (l : Layer) (place : ℕ → ℕ) (es : ℕ → List Entry) where
  -- The result of the search, and what it leaves.
  pub record IsSearch (s : Store) (n : ℕ) (p : Result (ℕ × ℕ) × Store) : Type 0 where
    pub number : found_number p.1 p.0 ≡ n
    pub blocks : p.1.blocks ≡ s.blocks
    pub held : p.1.held ≡ s.held + kept p.0

  here :
      (s t : Store) (i : ℕ) (r : Result ℕ) (next : Store → Result (ℕ × ℕ) × Store) (n : ℕ)
      → t.outcomes ≡ []
      → t.blocks ≡ s.blocks
      → t.held ≡ s.held + 1
      → number_at (s.blocks (place i)) r ≡ number_of name (es i)
      → ((de : ℕ) → r ≡ ok de → number_of name (es i) ≢ 0)
      → ((u : Store)
          → u.outcomes ≡ []
          → u.blocks ≡ s.blocks
          → u.held ≡ s.held
          → IsSearch s n (next u))
      → IsSearch s
          (if number_of name (es i) == 0 then n else number_of name (es i))
          (find_here sb name r (place i) next t)
  unfolding find_here
  here s t i (ok de) next n quiet same count num used go =
      let u = used de refl in
      let test : (number_of name (es i) == 0) ≡ false = ground arith in
      rw test (record { number = rw same num; blocks = same; held = count })
  here s t i (err e) next n quiet same count num used go =
      let test : (number_of name (es i) == 0) ≡ true = ground arith in
      rw (test, block_set-quiet t quiet)
        (go (record t { held = t.held - 1 }) quiet same (omega arith))

  from :
      (s u : Store) (n : ℕ) (p : Result (ℕ × ℕ) × Store)
      → u.blocks ≡ s.blocks
      → u.held ≡ s.held
      → IsSearch u n p
      → IsSearch s n p
  from s u n p same count r = record {
    number = r.number;
    blocks = r.blocks ∙ same;
    held = rw (← count) r.held;
  }

  walk :
      (rounds i n : ℕ) (s : Store)
      → i + rounds ≤ n
      → s.outcomes ≡ []
      → HasBlocks sb l s.blocks n place es
      → IsSearch s (number_among name es rounds i) (find_blocks sb name l rounds i s)
  unfolding find_blocks number_among find_round
  walk zero i n s h quiet b = record { number = refl; blocks = refl; held = omega arith }
  walk (suc rounds) i n s h quiet b =
      let (at, block) = b i (omega arith) in
      let t = record s { held = s.held + 1 } in
      rw (at, block_get-quiet s quiet)
        (here s t i (find_in_block sb name (s.blocks (place i)))
          (λ u. find_blocks sb name l rounds (i + 1) u) (number_among name es rounds (i + 1)) quiet
          refl refl (number_in-eq sb (s.blocks (place i)) name block)
          (λ de e.
            lookup-used sb (s.blocks (place i)) name 0 (room sb) de (es i) block.chain
              (sym (find_in_block-lookup sb (s.blocks (place i)) name block) ∙ e))
          (λ u q same count.
            from s u _ _ same count
              (walk rounds (i + 1) n u (omega arith) q (λ j k. rw same (b j k)))))

  -- On a device that does not fail, a linear search finds the inode of the name in the first block that
  -- has it, or none. It changes no block, and keeps a reference only to the block of an entry that it
  -- found. Each block of the directory is mapped and well-formed.
  pub find_linear-IsSearch :
      (s : Store)
      → s.outcomes ≡ []
      → HasBlocks sb l s.blocks (total_blocks sb s) place es
      → IsSearch s (number_among name es (total_blocks sb s) 0) (find_linear sb name l s)
  unfolding find_linear
  find_linear-IsSearch s quiet b =
      walk (total_blocks sb s) 0 (total_blocks sb s) s (omega arith) quiet b
