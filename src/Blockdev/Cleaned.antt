-- ===== src/Blockdev/Cleaned.antt =====
-- Emptying the cache: `ext4_bcache_cleanup`.
use initramfstool.Base.{
  ℕ, suc, ◌<◌, ◌≡◌, refl, sym, ◌∙◌, arith, true, false, List, [], ◌∷◌, ==-self, Bool-cases, inl,
  inr,
}
use initramfstool.Bdev.{Bdev}
use initramfstool.Bdev.Direct.{block_at}
use initramfstool.Bcache.{has, remove, flush_buf, drop_buf, cleanup_nodes, cleanup}
use initramfstool.Bcache.Sets.{Ascends, has-above, remove_absent}
use initramfstool.Bcache.Valid.{IsValid, view, seen}
use initramfstool.Bcache.Flushed.{
  flush_buf-lba_root, flush_buf_clean, flush_buf_result, flush_buf_quiet,
}
use initramfstool.Bcache.Dropped.{drop_buf-dropped}
use initramfstool.Blockdev.Unseen.{
  IsUnseen, IsUnseen-refl, IsUnseen-trans, flush_buf-IsUnseen, drop_buf-IsUnseen,
}

first_member : (k : ℕ) (l : List ℕ) → has (k ∷ l) k ≡ true
unfolding has
first_member k l = rw (==-self k) refl

-- The first of an ascending list is not in the rest.
rest_without : (k : ℕ) (l : List ℕ) → Ascends (suc k) l → has l k ≡ false
rest_without k l v = elim (Bool-cases (has l k)) [
  | inl h ↦ (let above = has-above (suc k) k l v h in absurd (omega arith))
  | inr h ↦ h
]

remove_first : (k : ℕ) (l : List ℕ) → Ascends 0 (k ∷ l) → remove k (k ∷ l) ≡ l
unfolding remove
remove_first k l v = rw (==-self k) (remove_absent k l (rest_without k l v.1))

-- One round of the loop, for the first buffer.
module _ (k : ℕ) (l : List ℕ) (s : Bdev) (v : IsValid s) (nodes : s.lba_root ≡ k ∷ l)
    (quiet : s.outcomes ≡ []) where
  member : has s.lba_root k ≡ true
  member = rw nodes (first_member k l)

  abbrev flushed : Bdev
  flushed = (flush_buf s k).1

  flushed-IsUnseen : IsUnseen s flushed
  flushed-IsUnseen = flush_buf-IsUnseen k s v member

  flushed_member : has flushed.lba_root k ≡ true
  flushed_member = rw (flush_buf-lba_root k s v member) member

  round-IsUnseen : IsUnseen s (drop_buf flushed k)
  round-IsUnseen =
      let u = flushed-IsUnseen in
      IsUnseen-trans u (
        drop_buf-IsUnseen k flushed u.valid flushed_member
          (flush_buf_clean k s v member (flush_buf_result k s v member (rw quiet refl))))

  round-lba_root : (drop_buf flushed k).lba_root ≡ l
  round-lba_root =
      let u = flushed-IsUnseen in
      let order = v.order in
      rw (drop_buf-dropped k flushed u.valid flushed_member, flush_buf-lba_root k s v member, nodes)
        (remove_first k l (rw nodes at order))

  round_quiet : (drop_buf flushed k).outcomes ≡ []
  round_quiet =
      let u = flushed-IsUnseen in
      rw (drop_buf-dropped k flushed u.valid flushed_member) (flush_buf_quiet k s v member quiet)

-- The cache is empty, and nobody has seen it.
record IsEmptied (s t : Bdev) : Type 0 where
  pub unseen : IsUnseen s t
  pub nodes : t.lba_root ≡ []

cleanup_nodes-IsEmptied :
    (l : List ℕ) (s : Bdev)
    → IsValid s
    → s.lba_root ≡ l
    → s.outcomes ≡ []
    → IsEmptied s (cleanup_nodes l s)
unfolding cleanup_nodes
cleanup_nodes-IsEmptied [] s v nodes quiet = record { unseen = IsUnseen-refl v; nodes = nodes }
cleanup_nodes-IsEmptied (k ∷ l) s v nodes quiet =
    let u = round-IsUnseen k l s v nodes quiet in
    let r =
      cleanup_nodes-IsEmptied l (drop_buf (flush_buf s k).1 k) u.valid
        (round-lba_root k l s v nodes quiet) (round_quiet k l s v nodes quiet) in
    record { unseen = IsUnseen-trans u r.unseen; nodes = r.nodes }

empty_view : (s : Bdev) (j : ℕ) → s.lba_root ≡ [] → view s j ≡ block_at s j
unfolding view seen has
empty_view s j e = rw e refl

-- `ext4_bcache_cleanup` of a well-formed cache, on a device that does not fail, leaves the cache empty and
-- on the device every block as it was seen.
pub cleanup_writes_all :
    (s : Bdev)
    → IsValid s
    → s.outcomes ≡ []
    → ((cleanup s).lba_root ≡ []) × ((j : ℕ) → j < s.lg_bcnt → block_at (cleanup s) j ≡ view s j)
unfolding cleanup
cleanup_writes_all s v quiet =
    let r = cleanup_nodes-IsEmptied s.lba_root s v refl quiet in
    (
      r.nodes,
      λ j h. sym (empty_view (cleanup_nodes s.lba_root s) j r.nodes) ∙ IsUnseen.same r.unseen j h,
    )
