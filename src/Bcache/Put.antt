-- ===== src/Bcache/Put.antt =====
-- The steps of `ext4_bcache_free`: each leaves the buffer in the cache, and its block as it is seen.
use initramfstool.Base.{
  ℕ, ◌<◌, ◌≡◌, refl, ◌∙◌, arith, Bool, true, false, ◌&&◌, ◌∷◌, ◌==◌, ==-self, if◌then◌else◌,
  Bool-cases, inl, inr,
}
use initramfstool.Super.{sub32}
use initramfstool.Bdev.{Bdev, pba, pb_cnt}
use initramfstool.Bdev.Direct.{block_at}
use initramfstool.Bcache.{has, insert, store, flush_buf}
use initramfstool.Bcache.Sets.{inserted_self}
use initramfstool.Bcache.Frame.{store-IsFrame, same-IsFrame, stored, inserted}
use initramfstool.Bcache.Flushed.{flush_buf-IsStep, view-flush_buf, flush_buf-lba_root}
use initramfstool.Bcache.Valid.{IsValid, IsStep, IsStep-trans, seen, view}

abbrev pub decremented : Bdev → ℕ → Bdev
decremented s k = store s k (record (s.buf k) { refctr = sub32 (s.buf k).refctr 1 })

-- The last reference is given back.
abbrev pub released : Bdev → ℕ → Bdev
released s k = record (decremented s k) { lru_root = insert k s.lru_root }

module _ (k : ℕ) (s : Bdev) (v : IsValid s) (member : has s.lba_root k ≡ true)
    (held : 0 < (s.buf k).refctr) where
  pub idle_list : has s.dirty_list k ≡ false
  idle_list = elim (Bool-cases (has s.dirty_list k)) [
    | inl l ↦ (let r = (v.nodes k).ready l in absurd (ground arith))
    | inr n ↦ n
  ]

  pub more-IsStep : (sub32 (s.buf k).refctr 1 == 0) ≡ false → IsStep k s (decremented s k)
  unfolding block_at pba pb_cnt
  more-IsStep more = record {
    frame = store-IsFrame k s (record (s.buf k) { refctr = sub32 (s.buf k).refctr 1 });
    order = v.order;
    count = v.count;
    room = v.room;
    node = rw (==-self k) (
        let p = v.nodes k in
        record {
          lru = ground (arith, p.lru);
          listed = p.listed;
          ready = λ l. absurd (ground (arith, l, idle_list));
          dirty = p.dirty;
          size = p.size;
          inside = p.inside;
        });
    synced = rw (==-self k) (v.synced k);
  }

  pub released-IsStep : (sub32 (s.buf k).refctr 1 == 0) ≡ true → IsStep k s (released s k)
  unfolding block_at pba pb_cnt
  released-IsStep last = record {
    frame =
        same-IsFrame k s
          (λ j. if k == j then record (s.buf k) { refctr = sub32 (s.buf k).refctr 1 } else s.buf j)
          s.lba_root (insert k s.lru_root) s.dirty_list s.lru_ctr s.ref_blocks s.max_ref_blocks
          s.outcomes (stored k s (record (s.buf k) { refctr = sub32 (s.buf k).refctr 1 }))
          (λ j ne. refl) (inserted k s s.lru_root) (λ j ne. refl);
    order = v.order;
    count = v.count;
    room = v.room;
    node = rw (==-self k) (
        let p = v.nodes k in
        record {
          lru = rw (inserted_self k s.lru_root, member, last) refl;
          listed = p.listed;
          ready = λ l. absurd (ground (arith, l, idle_list));
          dirty = p.dirty;
          size = p.size;
          inside = p.inside;
        });
    synced = rw (==-self k) (v.synced k);
  }

  pub view-decremented : view (decremented s k) k ≡ view s k
  unfolding view seen block_at pba pb_cnt
  view-decremented = rw (==-self k) refl

  pub view-released : view (released s k) k ≡ view s k
  unfolding view seen block_at pba pb_cnt
  view-released = rw (==-self k) refl

-- The marks BC_FLUSH and BC_TMP of the buffer at `k` are set to these.
abbrev pub flagged : Bdev → ℕ → Bool → Bool → Bdev
flagged s k flush tmp = store s k (record (s.buf k) { flush = flush; tmp = tmp })

-- A step that leaves the buffer in the cache and its block as it is seen.
pub record IsSteady (k : ℕ) (s t : Bdev) : Type 0 where
  pub step : IsStep k s t
  pub members : t.lba_root ≡ s.lba_root
  pub same : view t k ≡ view s k

pub IsSteady-trans : {k : ℕ} {s t u : Bdev} → IsSteady k s t → IsSteady k t u → IsSteady k s u
IsSteady-trans f g = record {
  step = IsStep-trans f.step g.step;
  members = g.members ∙ f.members;
  same = g.same ∙ f.same;
}

-- A buffer that nobody refers to.
module _ (k : ℕ) (s : Bdev) (v : IsValid s) (member : has s.lba_root k ≡ true) where
  pub flush_buf-IsSteady : IsSteady k s (flush_buf s k).1
  flush_buf-IsSteady = record {
    step = flush_buf-IsStep k s v member;
    members = flush_buf-lba_root k s v member;
    same = view-flush_buf k s v member;
  }

  pub flagged-IsSteady : (flush tmp : Bool) → IsSteady k s (flagged s k flush tmp)
  unfolding block_at pba pb_cnt view seen
  flagged-IsSteady flush tmp = record {
    step = record {
      frame = store-IsFrame k s (record (s.buf k) { flush = flush; tmp = tmp });
      order = v.order;
      count = v.count;
      room = v.room;
      node = rw (==-self k) (
          let p = v.nodes k in
          record {
            lru = p.lru;
            listed = p.listed;
            ready = p.ready;
            dirty = p.dirty;
            size = p.size;
            inside = p.inside;
          });
      synced = rw (==-self k) (v.synced k);
    };
    members = refl;
    same = rw (==-self k) refl;
  }

  pub queued-IsSteady :
      ((s.buf k).dirty && (s.buf k).refctr == 0) ≡ true
      → IsSteady k s (record (store s k (record (s.buf k) { on_dirty_list = true })) {
        dirty_list = k ∷ s.dirty_list;
      })
  unfolding block_at pba pb_cnt view seen has
  queued-IsSteady idle = record {
    step = record {
      frame =
          same-IsFrame k s
            (λ j. if k == j then record (s.buf k) { on_dirty_list = true } else s.buf j) s.lba_root
            s.lru_root (k ∷ s.dirty_list) s.lru_ctr s.ref_blocks s.max_ref_blocks s.outcomes
            (stored k s (record (s.buf k) { on_dirty_list = true })) (λ j ne. refl) (λ j ne. refl)
            (λ j ne. rw ne refl);
      order = v.order;
      count = v.count;
      room = v.room;
      node = rw (==-self k) (
          let p = v.nodes k in
          record {
            lru = p.lru;
            listed = rw member refl;
            ready = λ l. idle;
            dirty = p.dirty;
            size = p.size;
            inside = p.inside;
          });
      synced = rw (==-self k) (v.synced k);
    };
    members = refl;
    same = rw (==-self k) refl;
  }
