-- ===== src/Bcache/Unlisted.antt =====
-- Taking a buffer off the dirty list and out of the LRU tree, whether it is there or not.
use initramfstool.Base.{
  ℕ, ◌≡◌, refl, sym, ap, ap₂, ◌∙◌, arith, Bool, true, false, List, ◌==◌, if◌then◌else◌, Bool-cases,
  inl, inr,
}
use mathlib.Core.Path.{fun_ext}
use initramfstool.Bdev.{Buf, Bdev}
use initramfstool.Bcache.{has, remove, store, remove_dirty_node}
use initramfstool.Bcache.Sets.{remove_absent}

same_buf :
    (s : Bdev) (k : ℕ)
    → (s.buf k).on_dirty_list ≡ false
    → (j : ℕ) → s.buf j ≡ (if k == j then record (s.buf k) { on_dirty_list = false } else s.buf j)
same_buf s k off j = elim (Bool-cases (k == j)) [
  | inl e ↦ let same : k ≡ j = ground arith in rw (e, ← same, ← off) refl
  | inr ne ↦ rw ne refl
]

-- The buffer at `k` is not on the dirty list.
abbrev pub unlisted : Bdev → ℕ → Bdev
unlisted s k = record (store s k (record (s.buf k) { on_dirty_list = false })) {
  dirty_list = remove k s.dirty_list;
}

pub remove_dirty_node-unlisted :
    (s : Bdev) (k : ℕ)
    → has s.dirty_list k ≡ (s.buf k).on_dirty_list
    → remove_dirty_node s k ≡ unlisted s k
unfolding remove_dirty_node
remove_dirty_node-unlisted s k h = elim (Bool-cases (s.buf k).on_dirty_list) [
  | inl on ↦ rw on refl
  | inr off ↦ rw off (
      ap₂ (λ (b : ℕ → Buf) (l : List ℕ). record s { buf = b; dirty_list = l })
        (fun_ext (same_buf s k off)) (sym (remove_absent k s.dirty_list (h ∙ off))))
]

not_listed : (s : Bdev) (k : ℕ) → (s.buf k).on_dirty_list ≡ false → remove_dirty_node s k ≡ s
unfolding remove_dirty_node
not_listed s k off = rw off refl

-- `if (ext4_bcache_test_flag(buf, BC_DIRTY)) ext4_bcache_remove_dirty_node(bc, buf)`.
pub settled :
    (s : Bdev) (k : ℕ)
    → has s.dirty_list k ≡ (s.buf k).on_dirty_list
    → ((s.buf k).on_dirty_list ≡ true → (s.buf k).dirty ≡ true)
    → (if (s.buf k).dirty then remove_dirty_node s k else s) ≡ unlisted s k
settled s k h listed = elim (Bool-cases (s.buf k).dirty) [
  | inl d ↦ choose d ∙ remove_dirty_node-unlisted s k h
  | inr c ↦ choose c ∙ (sym (not_listed s k (ground arith)) ∙ remove_dirty_node-unlisted s k h)
]
  where
    choose :
        {d : Bool}
        → (s.buf k).dirty ≡ d
        → (if (s.buf k).dirty then remove_dirty_node s k else s)
          ≡ (if d then remove_dirty_node s k else s)
    choose e = ap (λ (b : Bool). if b then remove_dirty_node s k else s) e

-- `if (!buf->refctr) RB_REMOVE(ext4_buf_lru, &bc->lru_root, buf)`.
pub unqueued :
    (s : Bdev) (k : ℕ)
    → has s.lru_root k ≡ ((s.buf k).refctr == 0)
    → (if (s.buf k).refctr == 0 then record s { lru_root = remove k s.lru_root } else s)
      ≡ record s { lru_root = remove k s.lru_root }
unqueued s k h = elim (Bool-cases ((s.buf k).refctr == 0)) [
  | inl e ↦ rw e refl
  | inr e ↦
      rw e
        (ap (λ (l : List ℕ). record s { lru_root = l }) (sym (remove_absent k s.lru_root (h ∙ e))))
]
