-- ===== src/Dir/Removed.antt =====
-- A removal from a block is a removal from the list of its entries.
use initramfstool.Base.{
  ℕ, ◌+◌, ◌≡◌, inl, inr, sym, ◌∙◌, arith, false, List, [], ◌∷◌, ◌==◌, Bool-cases,
}
use mathlib.Core.Path.{subst}
use initramfstool.Super.{Sblock}
use initramfstool.Fs.Monad.{ok}
use initramfstool.Dir.{InodeRef, set_inode, remove_at, find_in_block, merge}
use initramfstool.Dir.Bytes.{Memory, SameOutside, same_name, put32-outside, outside-wider}
use initramfstool.Dir.Entries.{Entry, IsChain, IsChain-same, IsBlock, room, room-le, chain-le}
use initramfstool.Dir.Csum.{IsResult, changed-IsResult}
use initramfstool.Dir.Found.{has_name, lookup, find_in_block-lookup}
use initramfstool.Dir.Merged.{remove, remove_after, walk, set_inode-IsAt, lookup-le}
use initramfstool.Dir.Numbers.{number_in, number_in-eq, IsOnce, remove-Loses}

module _ (sb : Sblock) (ref : InodeRef) (name : List ℕ) (m : Memory) where
  set_inode-outside : (pos : ℕ) → SameOutside m (set_inode m pos 0) pos (pos + 4)
  unfolding set_inode
  set_inode-outside pos = put32-outside m pos 0

  module _ {all : List Entry} (b : IsBlock sb m all) where
    at_first :
        (e : Entry) (es : List Entry)
        → IsChain sb m 0 (room sb) (e ∷ es)
        → IsResult sb ref m (record e { inode = 0 } ∷ es) (remove_at sb ref m 0)
    unfolding remove_at
    at_first e es (a, v, rest) =
        let end = chain-le sb m (0 + e.entry_len) (room sb) es rest in
        let fits = v.fits in
        let out = set_inode-outside 0 in
        changed-IsResult sb ref m (record e { inode = 0 } ∷ es) (set_inode m 0 0) b
          (
            set_inode-IsAt sb m 0 0 e (omega arith) a,
            record { fits = v.fits; aligned = v.aligned; short = v.short },
            IsChain-same sb m (set_inode m 0 0) (0 + e.entry_len) (room sb) es
                (λ x h k. out x (inr (omega arith))) rest,
          )
          (outside-wider 0 4 0 (room sb) (omega arith) (omega arith) out)

    at_later :
        (pos : ℕ) (e : Entry) (es : List Entry)
        → IsChain sb m 0 (room sb) (e ∷ es)
        → lookup (0 + e.entry_len) name es ≡ ok pos
        → (pos == 0) ≡ false
        → IsResult sb ref m (remove_after e name es) (remove_at sb ref m pos)
    unfolding remove_at merge
    at_later pos e es c found later =
        let small = b.small in
        let (chain, same) =
          walk sb m (set_inode m pos 0) (room sb) pos name (set_inode-outside pos)
            (omega (arith, room-le b)) pos 0 e es c found (omega arith) in
        rw later (changed-IsResult sb ref m (remove_after e name es) _ b chain same)

    found :
        (pos : ℕ) (es : List Entry)
        → IsChain sb m 0 (room sb) es
        → lookup 0 name es ≡ ok pos
        → IsResult sb ref m (remove name es) (remove_at sb ref m pos)
    unfolding lookup remove
    found pos [] c h = cc
    found pos (e ∷ es) c h = elim (Bool-cases (has_name name e)) [
      | inl k ↦
          let at : 0 ≡ pos = ground arith in
          rw k (
            subst
              (λ (x : ℕ). IsResult sb ref m (record e { inode = 0 } ∷ es) (remove_at sb ref m x)) at
              (at_first e es c))
      | inr k ↦
          let h' : lookup (0 + e.entry_len) name es ≡ ok pos = ground arith in
          let fits = c.1.fits in
          let later : (pos == 0) ≡ false =
            ground (arith, lookup-le sb m (0 + e.entry_len) (room sb) pos name es c.2) in
          rw k (at_later pos e es c h' later)
    ]

    -- In a well-formed block the removal of the entry that a search found takes it out of the list of entries: its bytes go to
    -- the entry before it, and the first entry of the block is marked as unused. The checksum
    -- verifies, and nothing past the block has changed.
    pub remove_at-remove :
        {pos : ℕ}
        → find_in_block sb name m ≡ ok pos
        → IsResult sb ref m (remove name all) (remove_at sb ref m pos)
    remove_at-remove {pos} h = found pos all b.chain (sym (find_in_block-lookup sb m name b) ∙ h)

    -- After the removal of a name that stood once in a well-formed block, a search for it finds nothing, and a search for any
    -- other name finds what it found before.
    pub number_in-remove_at :
        {pos : ℕ}
        → IsOnce name all
        → find_in_block sb name m ≡ ok pos
        → (number_in sb name (remove_at sb ref m pos) ≡ 0)
          × ((other : List ℕ)
              → same_name other name ≡ false
              → number_in sb other (remove_at sb ref m pos) ≡ number_in sb other m)
    number_in-remove_at {pos} once h =
        let r = remove_at-remove h in
        let (gone, others) = remove-Loses name all in
        (
          number_in-eq sb (remove_at sb ref m pos) name r.block ∙ gone once,
          λ other apart.
              rw (number_in-eq sb (remove_at sb ref m pos) other r.block, number_in-eq sb m other b)
                (others other apart),
        )
