-- ===== src/Bcache/Frame.antt =====
-- What an operation on one buffer leaves alone: the other buffers, their places in the trees and in
-- the list, and the other blocks of the device.
use initramfstool.Base.{
  ℕ, ◌<◌, ◌≡◌, refl, ◌∙◌, true, false, List, ◌∷◌, ◌==◌, if◌then◌else◌, Bool-cases, inl, inr,
}
use initramfstool.Bdev.{Buf, Bdev, pba, pb_cnt}
use initramfstool.Bdev.Direct.{block_at}
use initramfstool.Bcache.{has, insert, remove, store, insert_dirty_node, remove_dirty_node}
use initramfstool.Bcache.Sets.{has-insert, has-remove}

-- The numbers that say where a block lies.
pub record IsSameLayout (s t : Bdev) : Type 0 where
  pub ph_bsize : t.ph_bsize ≡ s.ph_bsize
  pub part_offset : t.part_offset ≡ s.part_offset
  pub lg_bsize : t.lg_bsize ≡ s.lg_bsize
  pub lg_bcnt : t.lg_bcnt ≡ s.lg_bcnt
  pub fresh : t.fresh ≡ s.fresh

pub record IsFrame (k : ℕ) (s t : Bdev) : Type 0 where
  pub layout : IsSameLayout s t
  pub bufs : (j : ℕ) → (k == j) ≡ false → t.buf j ≡ s.buf j
  pub nodes : (j : ℕ) → (k == j) ≡ false → has t.lba_root j ≡ has s.lba_root j
  pub lru : (j : ℕ) → (k == j) ≡ false → has t.lru_root j ≡ has s.lru_root j
  pub listed : (j : ℕ) → (k == j) ≡ false → has t.dirty_list j ≡ has s.dirty_list j
  pub blocks : (j : ℕ) → (k == j) ≡ false → j < s.lg_bcnt → block_at t j ≡ block_at s j

pub IsFrame-refl : (k : ℕ) (s : Bdev) → IsFrame k s s
IsFrame-refl k s = record {
  layout = record {
    ph_bsize = refl;
    part_offset = refl;
    lg_bsize = refl;
    lg_bcnt = refl;
    fresh = refl;
  };
  bufs = λ j ne. refl;
  nodes = λ j ne. refl;
  lru = λ j ne. refl;
  listed = λ j ne. refl;
  blocks = λ j ne h. refl;
}

pub IsFrame-trans : {k : ℕ} {s t u : Bdev} → IsFrame k s t → IsFrame k t u → IsFrame k s u
IsFrame-trans f g = record {
  layout = record {
    ph_bsize = g.layout.ph_bsize ∙ f.layout.ph_bsize;
    part_offset = g.layout.part_offset ∙ f.layout.part_offset;
    lg_bsize = g.layout.lg_bsize ∙ f.layout.lg_bsize;
    lg_bcnt = g.layout.lg_bcnt ∙ f.layout.lg_bcnt;
    fresh = g.layout.fresh ∙ f.layout.fresh;
  };
  bufs = λ j ne. g.bufs j ne ∙ f.bufs j ne;
  nodes = λ j ne. g.nodes j ne ∙ f.nodes j ne;
  lru = λ j ne. g.lru j ne ∙ f.lru j ne;
  listed = λ j ne. g.listed j ne ∙ f.listed j ne;
  blocks = λ j ne h. g.blocks j ne (rw f.layout.lg_bcnt h) ∙ f.blocks j ne h;
}

-- A change of the cache's own data, by what becomes of the other buffers.
pub same-IsFrame :
    (k : ℕ) (s : Bdev) (buf : ℕ → Buf) (lba_root lru_root dirty_list : List ℕ)
    (lru_ctr ref_blocks max_ref_blocks : ℕ) (outcomes : List ℕ)
    → ((j : ℕ) → (k == j) ≡ false → buf j ≡ s.buf j)
    → ((j : ℕ) → (k == j) ≡ false → has lba_root j ≡ has s.lba_root j)
    → ((j : ℕ) → (k == j) ≡ false → has lru_root j ≡ has s.lru_root j)
    → ((j : ℕ) → (k == j) ≡ false → has dirty_list j ≡ has s.dirty_list j)
    → IsFrame k s (record s {
      buf = buf;
      lba_root = lba_root;
      lru_root = lru_root;
      dirty_list = dirty_list;
      lru_ctr = lru_ctr;
      ref_blocks = ref_blocks;
      max_ref_blocks = max_ref_blocks;
      outcomes = outcomes;
    })
unfolding block_at pba pb_cnt
same-IsFrame k s buf lba_root lru_root dirty_list lru_ctr ref_blocks max_ref_blocks outcomes b n l
      d =
    record {
      layout = record {
        ph_bsize = refl;
        part_offset = refl;
        lg_bsize = refl;
        lg_bcnt = refl;
        fresh = refl;
      };
      bufs = b;
      nodes = n;
      lru = l;
      listed = d;
      blocks = λ j ne h. refl;
    }

module _ (k : ℕ) (s : Bdev) where
  pub stored : (b : Buf) (j : ℕ) → (k == j) ≡ false → (if k == j then b else s.buf j) ≡ s.buf j
  stored b j ne = rw ne refl

  pub store-IsFrame : (b : Buf) → IsFrame k s (store s k b)
  store-IsFrame b =
      same-IsFrame k s (λ j. if k == j then b else s.buf j) s.lba_root s.lru_root s.dirty_list
        s.lru_ctr s.ref_blocks s.max_ref_blocks s.outcomes (stored b) (λ j ne. refl) (λ j ne. refl)
        (λ j ne. refl)

  pub removed : (l : List ℕ) (j : ℕ) → (k == j) ≡ false → has (remove k l) j ≡ has l j
  removed l j ne = rw (has-remove k j l, ne) refl

  pub inserted : (l : List ℕ) (j : ℕ) → (k == j) ≡ false → has (insert k l) j ≡ has l j
  inserted l j ne = rw (has-insert k j l, ne) refl

  consed : (l : List ℕ) (j : ℕ) → (k == j) ≡ false → has (k ∷ l) j ≡ has l j
  unfolding has
  consed l j ne = rw ne refl

  pub remove_dirty_node-IsFrame : IsFrame k s (remove_dirty_node s k)
  unfolding remove_dirty_node
  remove_dirty_node-IsFrame = elim (Bool-cases (s.buf k).on_dirty_list) [
    | inl e ↦ rw e (
        same-IsFrame k s
          (λ j. if k == j then record (s.buf k) { on_dirty_list = false } else s.buf j) s.lba_root
          s.lru_root (remove k s.dirty_list) s.lru_ctr s.ref_blocks s.max_ref_blocks s.outcomes
          (stored (record (s.buf k) { on_dirty_list = false })) (λ j ne. refl) (λ j ne. refl)
          (removed s.dirty_list))
    | inr e ↦ rw e (IsFrame-refl k s)
  ]

  insert_dirty_node-IsFrame : IsFrame k s (insert_dirty_node s k)
  unfolding insert_dirty_node
  insert_dirty_node-IsFrame = elim (Bool-cases (s.buf k).on_dirty_list) [
    | inl e ↦ rw e (IsFrame-refl k s)
    | inr e ↦ rw e (
        same-IsFrame k s
          (λ j. if k == j then record (s.buf k) { on_dirty_list = true } else s.buf j) s.lba_root
          s.lru_root (k ∷ s.dirty_list) s.lru_ctr s.ref_blocks s.max_ref_blocks s.outcomes
          (stored (record (s.buf k) { on_dirty_list = true })) (λ j ne. refl) (λ j ne. refl)
          (consed s.dirty_list))
  ]
