-- ===== src/Bcache/Flushed.antt =====
-- Writing one buffer back: `ext4_block_flush_buf`.
use initramfstool.Base.{
  ℕ, ◌<◌, ◌≡◌, refl, sym, ap, ◌∙◌, arith, Bool, true, false, ◌&&◌, ◌==◌, ==-self, [], Bool-cases,
  inl, inr,
}
use mathlib.Core.Path.{subst}
use initramfstool.Bdev.{Bdev, eok, first_outcome, blocks_set_direct, bdif_bwrite, pba, pb_cnt}
use initramfstool.Bdev.Direct.{block_at}
use initramfstool.Bcache.{has, remove, remove_dirty_node, clear_dirty_flag, flush_buf}
use initramfstool.Bcache.Sets.{removed_self}
use initramfstool.Bcache.Unlisted.{unlisted, remove_dirty_node-unlisted}
use initramfstool.Bcache.Frame.{IsFrame, IsFrame-trans, store-IsFrame, remove_dirty_node-IsFrame}
use initramfstool.Bcache.Valid.{IsNode, IsValid, IsStep, unchanged-IsStep, seen, view}
use initramfstool.Bcache.Written.{block_at-write, write-IsFrame}

-- The device after the attempt to write the buffer at `k`.
abbrev pub written : Bdev → ℕ → Bdev
written s k = (blocks_set_direct s (s.buf k).contents k 1).1

-- The buffer at `k` has been written.
abbrev pub cleaned : Bdev → ℕ → Bdev
cleaned s k = clear_dirty_flag (unlisted (written s k) k) k

abbrev pub is_pending : Bdev → ℕ → Bool
is_pending s k = (s.buf k).dirty && (s.buf k).uptodate

abbrev pub succeeds : Bdev → Bool
succeeds s = first_outcome s.outcomes == eok

written_result :
    (s : Bdev) (k : ℕ) → (blocks_set_direct s (s.buf k).contents k 1).0 ≡ first_outcome s.outcomes
unfolding blocks_set_direct bdif_bwrite
written_result s k = refl

-- The three ways a flush ends.
module _ (s : Bdev) (k : ℕ) (listed : has s.dirty_list k ≡ (s.buf k).on_dirty_list) where
  flush_buf_idle : is_pending s k ≡ false → flush_buf s k ≡ (eok, s)
  unfolding flush_buf
  flush_buf_idle off = rw off refl

  flush_buf_refused :
      is_pending s k ≡ true
      → succeeds s ≡ false
      → flush_buf s k ≡ (first_outcome s.outcomes, written s k)
  unfolding flush_buf
  flush_buf_refused on e = rw (on, written_result s k, e) refl

  unlisted-written : remove_dirty_node (written s k) k ≡ unlisted (written s k) k
  unfolding blocks_set_direct bdif_bwrite
  unlisted-written = remove_dirty_node-unlisted (written s k) k listed

  flush_buf_done : is_pending s k ≡ true → succeeds s ≡ true → flush_buf s k ≡ (eok, cleaned s k)
  unfolding flush_buf
  flush_buf_done on e =
      rw (on, written_result s k, e)
        (ap (λ (t : Bdev). (eok, clear_dirty_flag t k)) unlisted-written)

  -- What holds of the three holds of a flush.
  pub ways :
      (P : ℕ × Bdev → Type 0)
      → (is_pending s k ≡ false → P (eok, s))
      → (is_pending s k ≡ true → succeeds s ≡ true → P (eok, cleaned s k))
      → (is_pending s k ≡ true → succeeds s ≡ false → P (first_outcome s.outcomes, written s k))
      → P (flush_buf s k)
  ways P idle done refused = elim (Bool-cases (is_pending s k)) [
    | inr off ↦ subst P (sym (flush_buf_idle off)) (idle off)
    | inl on ↦ elim (Bool-cases (succeeds s)) [
      | inl e ↦ subst P (sym (flush_buf_done on e)) (done on e)
      | inr e ↦ subst P (sym (flush_buf_refused on e)) (refused on e)
    ]
  ]

-- A member of the cache that is flushed.
module _ (k : ℕ) (s : Bdev) (v : IsValid s) (member : has s.lba_root k ≡ true) where
  inside : k < s.lg_bcnt
  inside = (v.nodes k).inside member

  pub listed : has s.dirty_list k ≡ (s.buf k).on_dirty_list
  listed = rw ((v.nodes k).listed, member) refl

  written-IsFrame : IsFrame k s (written s k)
  written-IsFrame = write-IsFrame k s v.aligned inside (s.buf k).contents ((v.nodes k).size member)

  refused-IsStep : is_pending s k ≡ true → IsStep k s (written s k)
  unfolding blocks_set_direct bdif_bwrite
  refused-IsStep dirty = record {
    frame = written-IsFrame;
    order = v.order;
    count = v.count;
    room = v.room;
    node = v.nodes k;
    synced = λ h m u d. ground arith;
  }

  cleaned-IsFrame : IsFrame k s (cleaned s k)
  cleaned-IsFrame = IsFrame-trans written-IsFrame (
      IsFrame-trans
        (subst (λ t. IsFrame k (written s k) t) (unlisted-written s k listed)
          (remove_dirty_node-IsFrame k (written s k)))
        (store-IsFrame k (unlisted (written s k) k)
          (record ((unlisted (written s k) k).buf k) { dirty = false })))

  cleaned-IsNode : IsNode (cleaned s k) k
  unfolding blocks_set_direct bdif_bwrite
  cleaned-IsNode = rw (==-self k) (
      let p = v.nodes k in
      record {
        lru = p.lru;
        listed = rw (removed_self k s.dirty_list, member) refl;
        ready = λ l. absurd (ground (arith, l, removed_self k s.dirty_list));
        dirty = λ m d. absurd (ground arith);
        size = p.size;
        inside = p.inside;
      })

  block_at-cleaned : block_at (cleaned s k) k ≡ block_at (written s k) k
  unfolding block_at pba pb_cnt blocks_set_direct bdif_bwrite
  block_at-cleaned = refl

  written_block : succeeds s ≡ true → block_at (cleaned s k) k ≡ (s.buf k).contents
  written_block e =
      block_at-cleaned
      ∙ block_at-write k s v.aligned inside (s.buf k).contents ((v.nodes k).size member) k inside
      ∙ rw (e, ==-self k) refl

  cleaned_contents : ((cleaned s k).buf k).contents ≡ (s.buf k).contents
  unfolding blocks_set_direct bdif_bwrite
  cleaned_contents = rw (==-self k) refl

  cleaned-IsStep : succeeds s ≡ true → IsStep k s (cleaned s k)
  unfolding blocks_set_direct bdif_bwrite
  cleaned-IsStep e = record {
    frame = cleaned-IsFrame;
    order = v.order;
    count = v.count;
    room = v.room;
    node = cleaned-IsNode;
    synced = λ h m u d. cleaned_contents ∙ sym (written_block e);
  }

  -- Whatever the device answers, the cache stays well-formed.
  pub flush_buf-IsStep : IsStep k s (flush_buf s k).1
  flush_buf-IsStep =
      ways s k listed (λ p. IsStep k s p.1) (λ off. unchanged-IsStep k v) (λ on e. cleaned-IsStep e)
        (λ on e. refused-IsStep on)

  -- And nobody sees a difference.
  pub view-flush_buf : view (flush_buf s k).1 k ≡ view s k
  unfolding view seen blocks_set_direct bdif_bwrite
  view-flush_buf =
      ways s k listed (λ p. view p.1 k ≡ view s k) (λ off. refl)
        (λ on e. let u : (s.buf k).uptodate ≡ true = ground arith in rw (==-self k, member, u) refl)
        (λ on e. let u : (s.buf k).uptodate ≡ true = ground arith in rw (member, u) refl)

  pub flush_buf-lba_root : (flush_buf s k).1.lba_root ≡ s.lba_root
  unfolding blocks_set_direct bdif_bwrite
  flush_buf-lba_root =
      ways s k listed (λ p. p.1.lba_root ≡ s.lba_root) (λ off. refl) (λ on e. refl) (λ on e. refl)

  pub flush_buf-lru_root : (flush_buf s k).1.lru_root ≡ s.lru_root
  unfolding blocks_set_direct bdif_bwrite
  flush_buf-lru_root =
      ways s k listed (λ p. p.1.lru_root ≡ s.lru_root) (λ off. refl) (λ on e. refl) (λ on e. refl)

  pub flush_buf-tmp : ((flush_buf s k).1.buf k).tmp ≡ (s.buf k).tmp
  unfolding blocks_set_direct bdif_bwrite
  flush_buf-tmp =
      ways s k listed (λ p. (p.1.buf k).tmp ≡ (s.buf k).tmp) (λ off. refl)
        (λ on e. rw (==-self k) refl) (λ on e. refl)

  flush_buf-refctr : ((flush_buf s k).1.buf k).refctr ≡ (s.buf k).refctr
  unfolding blocks_set_direct bdif_bwrite
  flush_buf-refctr =
      ways s k listed (λ p. (p.1.buf k).refctr ≡ (s.buf k).refctr) (λ off. refl)
        (λ on e. rw (==-self k) refl) (λ on e. refl)

  -- A flush that succeeds leaves nothing to write.
  pub flush_buf_clean : ((flush_buf s k).0 == eok) ≡ true → is_pending (flush_buf s k).1 k ≡ false
  flush_buf_clean =
      ways s k listed (λ p. (p.0 == eok) ≡ true → is_pending p.1 k ≡ false) (λ off r. off)
        (λ on e r. rw (==-self k) refl) (λ on e r. absurd (ground arith))

  pub flush_buf_result : succeeds s ≡ true → ((flush_buf s k).0 == eok) ≡ true
  flush_buf_result ok =
      ways s k listed (λ p. (p.0 == eok) ≡ true) (λ off. refl) (λ on e. refl)
        (λ on e. absurd (ground arith))

  -- A flush of a buffer on the dirty list takes it off, if it succeeds.
  pub flush_buf-dirty_list :
      has s.dirty_list k ≡ true
      → ((flush_buf s k).0 == eok) ≡ true
      → (flush_buf s k).1.dirty_list ≡ remove k s.dirty_list
  unfolding blocks_set_direct bdif_bwrite
  flush_buf-dirty_list on =
      let fresh = (v.nodes k).dirty member in
      let ready = (v.nodes k).ready on in
      ways s k listed (λ p. (p.0 == eok) ≡ true → p.1.dirty_list ≡ remove k s.dirty_list)
        (λ off r. let u = fresh (ground arith) in absurd (ground arith)) (λ both e r. refl)
        (λ both e r. absurd (ground arith))

  -- A write that fails leaves the block on the device as it was.
  pub flush_buf_failed : succeeds s ≡ false → block_at (flush_buf s k).1 k ≡ block_at s k
  flush_buf_failed failed =
      ways s k listed (λ p. block_at p.1 k ≡ block_at s k) (λ off. refl)
        (λ on e. absurd (ground arith))
        (λ on e.
          block_at-write k s v.aligned inside (s.buf k).contents ((v.nodes k).size member) k inside
          ∙ rw failed refl)

  pub flush_buf_quiet : s.outcomes ≡ [] → (flush_buf s k).1.outcomes ≡ []
  unfolding blocks_set_direct bdif_bwrite
  flush_buf_quiet quiet =
      ways s k listed (λ p. p.1.outcomes ≡ []) (λ off. quiet) (λ on e. rw quiet refl)
        (λ on e. rw quiet refl)
