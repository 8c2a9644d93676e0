-- ===== src/Bcache/Found.antt =====
-- Taking a reference: `ext4_bcache_find_get` and `ext4_bcache_alloc`.
use initramfstool.Base.{
  ℕ, suc, ◌+◌, ◌^◌, ◌<◌, ◌≡◌, refl, arith, true, false, ◌==◌, ==-self, if◌then◌else◌, Bool-cases,
  inl, inr, u32, ltb,
}
use initramfstool.Bdev.{Buf, Bdev, pba, pb_cnt}
use initramfstool.Bdev.Direct.{block_at}
use initramfstool.Bcache.{has, insert, remove, store, inc_ref, leave_lru, get_found, add_buf}
use initramfstool.Bcache.Sets.{removed_self, inserted_self, insert-Ascends, length-insert}
use initramfstool.Bcache.Frame.{
  IsFrame, IsFrame-trans, store-IsFrame, same-IsFrame, stored, removed, inserted,
}
use initramfstool.Bcache.Unlisted.{unlisted, settled}
use initramfstool.Bcache.Dropped.{in_list, list_dirty}
use initramfstool.Bcache.Valid.{IsValid, IsStep, seen, view}

-- The buffer at `k` is used once more, and now.
abbrev pub touched : Bdev → ℕ → Bdev
touched s k = record (store s k (record (s.buf k) { lru_id = u32 (s.lru_ctr + 1) })) {
  lru_ctr = u32 (s.lru_ctr + 1);
  lru_root = remove k s.lru_root;
}

-- A member of the cache.
module _ (k : ℕ) (s : Bdev) (v : IsValid s) (member : has s.lba_root k ≡ true) where
  leave_lru-touched : leave_lru s k ≡ unlisted (touched s k) k
  unfolding leave_lru
  leave_lru-touched =
      settled (touched s k) k (rw (==-self k) (in_list k s v member))
        (rw (==-self k) (list_dirty k s v member))

  touched-IsFrame : IsFrame k s (unlisted (touched s k) k)
  touched-IsFrame =
      IsFrame-trans
        (same-IsFrame k s
          (λ j. if k == j then record (s.buf k) { lru_id = u32 (s.lru_ctr + 1) } else s.buf j)
          s.lba_root (remove k s.lru_root) s.dirty_list (u32 (s.lru_ctr + 1)) s.ref_blocks
          s.max_ref_blocks s.outcomes
          (stored k s (record (s.buf k) { lru_id = u32 (s.lru_ctr + 1) })) (λ j ne. refl)
          (removed k s s.lru_root) (λ j ne. refl))
        (same-IsFrame k (touched s k)
          (λ j.
            if k == j
            then record ((touched s k).buf k) { on_dirty_list = false }
            else (touched s k).buf j)
          s.lba_root (remove k s.lru_root) (remove k s.dirty_list) (u32 (s.lru_ctr + 1))
          s.ref_blocks s.max_ref_blocks s.outcomes
          (stored k (touched s k) (record ((touched s k).buf k) { on_dirty_list = false }))
          (λ j ne. refl) (λ j ne. refl) (removed k s s.dirty_list))

  -- A buffer that somebody refers to gets one more reference.
  busy-IsStep :
      ((s.buf k).refctr == 0) ≡ false → suc (s.buf k).refctr < 2 ^ 32 → IsStep k s (inc_ref s k)
  unfolding block_at pba pb_cnt
  busy-IsStep busy small = record {
    frame = store-IsFrame k s (record (s.buf k) { refctr = u32 ((s.buf k).refctr + 1) });
    order = v.order;
    count = v.count;
    room = v.room;
    node = rw (==-self k) (
        let p = v.nodes k in
        record {
          lru = ground (arith, p.lru);
          listed = p.listed;
          ready = λ l. (let r = p.ready l in absurd (ground arith));
          dirty = p.dirty;
          size = p.size;
          inside = p.inside;
        });
    synced = rw (==-self k) (v.synced k);
  }

  -- A buffer that nobody refers to leaves the tree and the list.
  idle-IsStep : ((s.buf k).refctr == 0) ≡ true → IsStep k s (inc_ref (unlisted (touched s k) k) k)
  unfolding block_at pba pb_cnt
  idle-IsStep idle = record {
    frame = IsFrame-trans touched-IsFrame (
        store-IsFrame k (unlisted (touched s k) k) (record ((unlisted (touched s k) k).buf k) {
          refctr = u32 (((unlisted (touched s k) k).buf k).refctr + 1);
        }));
    order = v.order;
    count = v.count;
    room = v.room;
    node = rw (==-self k) (
        let p = v.nodes k in
        record {
          lru = rw (removed_self k s.lru_root, member) (ground arith);
          listed = rw (removed_self k s.dirty_list, member) refl;
          ready = λ l. absurd (ground (arith, l, removed_self k s.dirty_list));
          dirty = p.dirty;
          size = p.size;
          inside = p.inside;
        });
    synced = rw (==-self k) (v.synced k);
  }

  pub get_found-IsStep : suc (s.buf k).refctr < 2 ^ 32 → IsStep k s (get_found s k)
  unfolding get_found
  get_found-IsStep small = elim (Bool-cases ((s.buf k).refctr == 0)) [
    | inl e ↦ rw (e, leave_lru-touched) (idle-IsStep e)
    | inr e ↦ rw e (busy-IsStep e small)
  ]

  pub view-get_found : view (get_found s k) k ≡ view s k
  unfolding get_found view seen block_at pba pb_cnt
  view-get_found = elim (Bool-cases ((s.buf k).refctr == 0)) [
    | inl e ↦ rw (e, leave_lru-touched, ==-self k) refl
    | inr e ↦ rw (e, ==-self k) refl
  ]

  pub get_found-lba_root : (get_found s k).lba_root ≡ s.lba_root
  unfolding get_found
  get_found-lba_root = elim (Bool-cases ((s.buf k).refctr == 0)) [
    | inl e ↦ rw (e, leave_lru-touched) refl
    | inr e ↦ rw e refl
  ]

  pub get_found-refctr : ((get_found s k).buf k).refctr ≡ u32 ((s.buf k).refctr + 1)
  unfolding get_found
  get_found-refctr = elim (Bool-cases ((s.buf k).refctr == 0)) [
    | inl e ↦ rw (e, leave_lru-touched, ==-self k) refl
    | inr e ↦ rw (e, ==-self k) refl
  ]

-- A new buffer.
module _ (k : ℕ) (s : Bdev) (v : IsValid s) (inside : k < s.lg_bcnt)
    (new : has s.lba_root k ≡ false) where
  added-IsFrame : IsFrame k s (add_buf s k)
  unfolding add_buf
  added-IsFrame =
      let ctr = u32 (s.lru_ctr + 1) in
      let blocks = u32 (s.ref_blocks + 1) in
      let b : Buf = record {
        contents = s.fresh;
        lru_id = ctr;
        refctr = 1;
        uptodate = false;
        dirty = false;
        flush = false;
        tmp = false;
        on_dirty_list = false;
      } in
      same-IsFrame k s (λ j. if k == j then b else s.buf j) (insert k s.lba_root) s.lru_root
        s.dirty_list ctr blocks (if ltb s.max_ref_blocks blocks then blocks else s.max_ref_blocks)
        s.outcomes (stored k s b) (inserted k s s.lba_root) (λ j ne. refl) (λ j ne. refl)

  pub add_buf-IsStep : suc s.ref_blocks < 2 ^ 32 → IsStep k s (add_buf s k)
  unfolding add_buf block_at pba pb_cnt
  add_buf-IsStep small = record {
    frame = added-IsFrame;
    order = insert-Ascends 0 k s.lba_root (omega arith) v.order;
    count = omega (arith, length-insert k s.lba_root new, v.count, v.room);
    room = omega arith;
    node = rw (==-self k) (
        let p = v.nodes k in
        record {
          lru = rw (inserted_self k s.lba_root) (ground (arith, p.lru));
          listed = rw (inserted_self k s.lba_root) (ground (arith, p.listed));
          ready = λ l. absurd (ground (arith, p.listed));
          dirty = λ m d. absurd (ground arith);
          size = λ m. v.memory;
          inside = λ m. inside;
        });
    synced = rw (==-self k) (λ h m u d. absurd (ground arith));
  }

  pub view-add_buf : view (add_buf s k) k ≡ view s k
  unfolding add_buf view seen block_at pba pb_cnt
  view-add_buf = rw (==-self k, new, inserted_self k s.lba_root) refl
