-- ===== src/Bcache/Dropped.antt =====
-- Dropping a buffer and invalidating it: `ext4_bcache_drop_buf` and `ext4_bcache_invalidate_buf`.
use initramfstool.Base.{
  ℕ, ◌≡◌, refl, ap, ◌∙◌, arith, true, false, ◌&&◌, List, ◌==◌, ==-self, if◌then◌else◌, Bool-cases,
  inl, inr,
}
use initramfstool.Super.{sub32}
use initramfstool.Bdev.{Bdev, pba, pb_cnt}
use initramfstool.Bdev.Direct.{block_at}
use initramfstool.Bcache.{has, remove, store, drop_buf, invalidate_buf}
use initramfstool.Bcache.Sets.{removed_self, remove-Ascends, length-remove}
use initramfstool.Bcache.Frame.{
  IsFrame, IsFrame-trans, store-IsFrame, same-IsFrame, stored, removed,
}
use initramfstool.Bcache.Unlisted.{unlisted, settled, unqueued}
use initramfstool.Bcache.Valid.{IsValid, IsStep, seen, view}

-- The buffer at `k` is nowhere.
abbrev pub dropped : Bdev → ℕ → Bdev
dropped s k = record (unlisted s k) {
  lru_root = remove k s.lru_root;
  lba_root = remove k s.lba_root;
  ref_blocks = sub32 s.ref_blocks 1;
}

abbrev pub invalidated : Bdev → ℕ → Bdev
invalidated s k =
    store (unlisted s k) k
      (record (s.buf k) { on_dirty_list = false; uptodate = false; dirty = false })

-- A member of the cache.
module _ (k : ℕ) (s : Bdev) (v : IsValid s) (member : has s.lba_root k ≡ true) where
  pub in_list : has s.dirty_list k ≡ (s.buf k).on_dirty_list
  in_list = rw ((v.nodes k).listed, member) refl

  pub in_lru : has s.lru_root k ≡ ((s.buf k).refctr == 0)
  in_lru = rw ((v.nodes k).lru, member) refl

  pub list_dirty : (s.buf k).on_dirty_list ≡ true → (s.buf k).dirty ≡ true
  list_dirty on = (let r = (v.nodes k).ready (in_list ∙ on) in ground arith)

  pub drop_buf-dropped : drop_buf s k ≡ dropped s k
  unfolding drop_buf
  drop_buf-dropped = rw (unqueued s k in_lru) (
      ap (λ (t : Bdev). record t { ref_blocks = sub32 t.ref_blocks 1 })
        (settled (record s { lru_root = remove k s.lru_root; lba_root = remove k s.lba_root }) k
          in_list list_dirty))

  invalidate_buf-invalidated : invalidate_buf s k ≡ invalidated s k
  unfolding invalidate_buf
  invalidate_buf-invalidated = rw (settled s k in_list list_dirty, ==-self k) refl

  unlisted-IsFrame :
      (lba_root lru_root : List ℕ) (ref_blocks : ℕ)
      → ((j : ℕ) → (k == j) ≡ false → has lba_root j ≡ has s.lba_root j)
      → ((j : ℕ) → (k == j) ≡ false → has lru_root j ≡ has s.lru_root j)
      → IsFrame k s (record (unlisted s k) {
        lba_root = lba_root;
        lru_root = lru_root;
        ref_blocks = ref_blocks;
      })
  unlisted-IsFrame lba_root lru_root ref_blocks n l =
      same-IsFrame k s (λ j. if k == j then record (s.buf k) { on_dirty_list = false } else s.buf j)
        lba_root lru_root (remove k s.dirty_list) s.lru_ctr ref_blocks s.max_ref_blocks s.outcomes
        (stored k s (record (s.buf k) { on_dirty_list = false })) n l (removed k s s.dirty_list)

  -- A buffer that is not a member is nowhere, and needs nothing.
  dropped-IsStep : IsStep k s (dropped s k)
  dropped-IsStep =
      (let gone = removed_self k s.lba_root in
        let size = length-remove 0 k s.lba_root v.order member in
        record {
          frame =
              unlisted-IsFrame (remove k s.lba_root) (remove k s.lru_root) (sub32 s.ref_blocks 1)
                (removed k s s.lba_root) (removed k s s.lru_root);
          order = remove-Ascends 0 k s.lba_root v.order;
          count = omega (arith, size, v.count, v.room);
          room = omega (arith, size, v.count, v.room);
          node = record {
            lru = rw (removed_self k s.lru_root, gone) refl;
            listed = rw (removed_self k s.dirty_list, gone) refl;
            ready = λ l. absurd (ground (arith, l, removed_self k s.dirty_list));
            dirty = λ m d. absurd (ground (arith, m, gone));
            size = λ m. absurd (ground (arith, m, gone));
            inside = λ m. absurd (ground (arith, m, gone));
          };
          synced = λ h m u d. absurd (ground (arith, m, gone));
        })

  pub drop_buf-IsStep : IsStep k s (drop_buf s k)
  drop_buf-IsStep = rw drop_buf-dropped dropped-IsStep

  invalidated-IsStep : IsStep k s (invalidated s k)
  invalidated-IsStep = record {
    frame =
        IsFrame-trans
          (unlisted-IsFrame s.lba_root s.lru_root s.ref_blocks (λ j ne. refl) (λ j ne. refl))
          (store-IsFrame k (unlisted s k)
            (record (s.buf k) { on_dirty_list = false; uptodate = false; dirty = false }));
    order = v.order;
    count = v.count;
    room = v.room;
    node = rw (==-self k) (
        let p = v.nodes k in
        record {
          lru = p.lru;
          listed = rw (removed_self k s.dirty_list, member) refl;
          ready = λ l. absurd (ground (arith, l, removed_self k s.dirty_list));
          dirty = λ m d. absurd (ground arith);
          size = p.size;
          inside = p.inside;
        });
    synced = rw (==-self k) (λ h m u d. absurd (ground arith));
  }

  invalidate_buf-IsStep : IsStep k s (invalidate_buf s k)
  invalidate_buf-IsStep = rw invalidate_buf-invalidated invalidated-IsStep

  -- What is dropped or invalidated is seen as it is on the device.
  pub view-drop_buf : view (drop_buf s k) k ≡ block_at s k
  unfolding view seen block_at pba pb_cnt
  view-drop_buf = rw (drop_buf-dropped, removed_self k s.lba_root) refl

  view-invalidate_buf : view (invalidate_buf s k) k ≡ block_at s k
  unfolding view seen block_at pba pb_cnt
  view-invalidate_buf = rw (invalidate_buf-invalidated, ==-self k, member) refl

  -- Only a buffer that is dirty is seen otherwise.
  pub clean_view : ((s.buf k).dirty && (s.buf k).uptodate) ≡ false → view s k ≡ block_at s k
  unfolding view seen
  clean_view c = elim (Bool-cases (s.buf k).uptodate) [
    | inl u ↦ rw (member, u) (v.synced k ((v.nodes k).inside member) member u (ground arith))
    | inr u ↦ rw (member, u) refl
  ]
