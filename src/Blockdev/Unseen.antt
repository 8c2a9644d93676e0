-- ===== src/Blockdev/Unseen.antt =====
-- The operations of the cache that nobody sees: they keep it well-formed and every block as it is seen.
use initramfstool.Base.{
  ℕ, suc, ◌^◌, ◌<◌, ◌≡◌, refl, sym, ◌∙◌, Bool, true, false, ◌&&◌, List, ◌==◌, Bool-cases, inl, inr,
  ◌⊎◌,
}
use initramfstool.Bdev.{Bdev, eok, first_outcome, later_outcomes, pba, pb_cnt}
use initramfstool.Bdev.Direct.{block_at}
use initramfstool.Bcache.{has, flush_buf, drop_buf, get_found, alloc, free}
use initramfstool.Bcache.Frame.{IsSameLayout}
use initramfstool.Bcache.Valid.{IsValid, IsStep, IsStep-IsValid, IsStep-view, view, seen}
use initramfstool.Bcache.Flushed.{flush_buf-IsStep, view-flush_buf}
use initramfstool.Bcache.Dropped.{drop_buf-IsStep, view-drop_buf, clean_view}
use initramfstool.Bcache.Found.{get_found-IsStep, view-get_found, add_buf-IsStep, view-add_buf}
use initramfstool.Bcache.Returned.{free-IsStep, view-free}

pub record IsUnseen (s t : Bdev) : Type 0 where
  pub valid : IsValid t
  pub layout : IsSameLayout s t
  pub same : (j : ℕ) → j < s.lg_bcnt → view t j ≡ view s j

pub IsSameLayout-refl : (s : Bdev) → IsSameLayout s s
IsSameLayout-refl s = record {
  ph_bsize = refl;
  part_offset = refl;
  lg_bsize = refl;
  lg_bcnt = refl;
  fresh = refl;
}

pub IsUnseen-refl : {s : Bdev} → IsValid s → IsUnseen s s
IsUnseen-refl {s} v = record { valid = v; layout = IsSameLayout-refl s; same = λ j h. refl }

pub IsUnseen-trans : {s t u : Bdev} → IsUnseen s t → IsUnseen t u → IsUnseen s u
IsUnseen-trans f g = record {
  valid = g.valid;
  layout = record {
    ph_bsize = g.layout.ph_bsize ∙ f.layout.ph_bsize;
    part_offset = g.layout.part_offset ∙ f.layout.part_offset;
    lg_bsize = g.layout.lg_bsize ∙ f.layout.lg_bsize;
    lg_bcnt = g.layout.lg_bcnt ∙ f.layout.lg_bcnt;
    fresh = g.layout.fresh ∙ f.layout.fresh;
  };
  same = λ j h. g.same j (rw f.layout.lg_bcnt h) ∙ f.same j h;
}

-- A step is unseen if its own block is seen as before.
pub unseen : {k : ℕ} {s t : Bdev} → IsValid s → IsStep k s t → view t k ≡ view s k → IsUnseen s t
unseen v p e = record {
  valid = IsStep-IsValid v p;
  layout = p.frame.layout;
  same = λ j h. IsStep-view j p h (λ own. e);
}

-- The same device and the same buffers: only the counters and the outcomes are others.
pub counted :
    (s : Bdev) (outcomes : List ℕ) (ph_refctr cache_write_back bread_ctr : ℕ) (dont_shake : Bool)
    → IsValid s
    → IsUnseen s (record s {
      outcomes = outcomes;
      ph_refctr = ph_refctr;
      cache_write_back = cache_write_back;
      bread_ctr = bread_ctr;
      dont_shake = dont_shake;
    })
unfolding view seen block_at pba pb_cnt
counted s outcomes ph_refctr cache_write_back bread_ctr dont_shake v = record {
  valid = record {
    aligned = record {
      some_ph = v.aligned.some_ph;
      whole = v.aligned.whole;
      lg_fits = v.aligned.lg_fits;
      part_fits = v.aligned.part_fits;
    };
    order = v.order;
    count = v.count;
    room = v.room;
    memory = v.memory;
    nodes = v.nodes;
    synced = v.synced;
  };
  layout = record {
    ph_bsize = refl;
    part_offset = refl;
    lg_bsize = refl;
    lg_bcnt = refl;
    fresh = refl;
  };
  same = λ j h. refl;
}

-- A member of the cache.
module _ (k : ℕ) (s : Bdev) (v : IsValid s) (member : has s.lba_root k ≡ true) where
  pub flush_buf-IsUnseen : IsUnseen s (flush_buf s k).1
  flush_buf-IsUnseen = unseen v (flush_buf-IsStep k s v member) (view-flush_buf k s v member)

  pub drop_buf-IsUnseen :
      ((s.buf k).dirty && (s.buf k).uptodate) ≡ false → IsUnseen s (drop_buf s k)
  drop_buf-IsUnseen clean =
      unseen v (drop_buf-IsStep k s v member)
        (view-drop_buf k s v member ∙ sym (clean_view k s v member clean))

  get_found-IsUnseen : suc (s.buf k).refctr < 2 ^ 32 → IsUnseen s (get_found s k)
  get_found-IsUnseen small =
      unseen v (get_found-IsStep k s v member small) (view-get_found k s v member)

  pub free-IsUnseen :
      0 < (s.buf k).refctr
      → (((s.buf k).dirty && (s.buf k).uptodate) ≡ true
          → (first_outcome s.outcomes ≡ eok) ⊎ ((s.buf k).tmp ≡ false))
      → IsUnseen s (free s k)
  free-IsUnseen held kept =
      unseen v (free-IsStep k s v member held) (view-free k s v member held kept)

pub alloc-IsUnseen :
    (k : ℕ) (s : Bdev)
    → IsValid s
    → k < s.lg_bcnt
    → suc (s.buf k).refctr < 2 ^ 32
    → suc s.ref_blocks < 2 ^ 32
    → IsUnseen s (alloc s k).1
unfolding alloc
alloc-IsUnseen k s v inside small room = elim (Bool-cases (has s.lba_root k)) [
  | inl member ↦ rw member (get_found-IsUnseen k s v member small)
  | inr new ↦
      let u =
        counted s (later_outcomes s.outcomes) s.ph_refctr s.cache_write_back s.bread_ctr
          s.dont_shake v in
      elim (Bool-cases (first_outcome s.outcomes == eok)) [
        | inl e ↦
            rw (new, e)
              (IsUnseen-trans u (
                unseen u.valid
                  (add_buf-IsStep k (record s { outcomes = later_outcomes s.outcomes }) u.valid
                    inside new room)
                  (view-add_buf k (record s { outcomes = later_outcomes s.outcomes }) u.valid inside
                    new)))
        | inr e ↦ rw (new, e) u
      ]
]
