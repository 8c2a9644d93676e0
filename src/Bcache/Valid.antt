-- ===== src/Bcache/Valid.antt =====
-- The well-formed states of the cache, and how an operation on one buffer keeps them: what
-- include/ext4_bcache.h and the comment at the head of src/ext4_bcache.c say of its trees and its list.
use initramfstool.Base.{
  ℕ, ◌^◌, ◌<◌, ◌≡◌, refl, arith, Bool, true, false, ◌&&◌, List, ◌==◌, if◌then◌else◌, length,
  Bool-cases, inl, inr,
}
use mathlib.Core.Path.{subst}
use initramfstool.Bdev.{Buf, Bdev}
use initramfstool.Bdev.Direct.{IsAligned, block_at}
use initramfstool.Bcache.{has}
use initramfstool.Bcache.Sets.{Ascends}
use initramfstool.Bcache.Frame.{IsSameLayout, IsFrame, IsFrame-refl, IsFrame-trans}

-- A buffer `b` at `lba` and its places: it is in the LRU tree if nobody refers to it, and the list
-- holds buffers that nobody refers to and that are dirty.
pub record IsPlaced (lg_bsize lg_bcnt lba : ℕ) (b : Buf) (node in_lru in_list : Bool) : Type 0 where
  pub lru : in_lru ≡ node && b.refctr == 0
  pub listed : in_list ≡ node && b.on_dirty_list
  pub ready : in_list ≡ true → (b.dirty && b.refctr == 0) ≡ true
  pub dirty : node ≡ true → b.dirty ≡ true → b.uptodate ≡ true
  pub size : node ≡ true → length b.contents ≡ lg_bsize
  pub inside : node ≡ true → lba < lg_bcnt

abbrev pub IsNode : Bdev → ℕ → Type 0
IsNode s j =
    IsPlaced s.lg_bsize s.lg_bcnt j (s.buf j) (has s.lba_root j) (has s.lru_root j)
      (has s.dirty_list j)

-- What a buffer that is up to date and not dirty holds is on the device.
abbrev pub IsSynced : Buf → Bool → List ℕ → Type 0
IsSynced b node block = node ≡ true → b.uptodate ≡ true → b.dirty ≡ false → b.contents ≡ block

pub record IsValid (s : Bdev) : Type 0 where
  pub aligned : IsAligned s
  pub order : Ascends 0 s.lba_root
  pub count : s.ref_blocks ≡ length s.lba_root
  pub room : s.ref_blocks < 2 ^ 32
  pub memory : length s.fresh ≡ s.lg_bsize
  pub nodes : (j : ℕ) → IsNode s j
  pub synced : (j : ℕ) → j < s.lg_bcnt → IsSynced (s.buf j) (has s.lba_root j) (block_at s j)

-- What the users of the cache see of a block.
unfoldable pub seen : Buf → Bool → List ℕ → List ℕ
seen b node block = if node && b.uptodate then b.contents else block

unfoldable pub view : Bdev → ℕ → List ℕ
view s j = seen (s.buf j) (has s.lba_root j) (block_at s j)

-- An operation on the buffer at `k`.
pub record IsStep (k : ℕ) (s t : Bdev) : Type 0 where
  pub frame : IsFrame k s t
  pub order : Ascends 0 t.lba_root
  pub count : t.ref_blocks ≡ length t.lba_root
  pub room : t.ref_blocks < 2 ^ 32
  pub node : IsNode t k
  pub synced : k < s.lg_bcnt → IsSynced (t.buf k) (has t.lba_root k) (block_at t k)

IsAligned-same : (s t : Bdev) → IsSameLayout s t → IsAligned s → IsAligned t
IsAligned-same s t l v = record {
  some_ph = rw l.ph_bsize v.some_ph;
  whole = rw (l.ph_bsize, l.lg_bsize) v.whole;
  lg_fits = rw l.lg_bsize v.lg_fits;
  part_fits = rw (l.lg_bcnt, l.lg_bsize, l.part_offset) v.part_fits;
}

IsNode-frame : (k j : ℕ) (s t : Bdev) → IsFrame k s t → (k == j) ≡ false → IsNode s j → IsNode t j
IsNode-frame k j s t f ne v =
    rw (f.layout.lg_bsize, f.layout.lg_bcnt, f.bufs j ne, f.nodes j ne, f.lru j ne, f.listed j ne) v

same : (k j : ℕ) → (k == j) ≡ true → k ≡ j
same k j e = ground arith

-- It keeps the cache well-formed.
pub IsStep-IsValid : {k : ℕ} {s t : Bdev} → IsValid s → IsStep k s t → IsValid t
IsStep-IsValid {k} {s} {t} v p = record {
  aligned = IsAligned-same s t p.frame.layout v.aligned;
  order = p.order;
  count = p.count;
  room = p.room;
  memory = rw (p.frame.layout.fresh, p.frame.layout.lg_bsize) v.memory;
  nodes = λ j. elim (Bool-cases (k == j)) [
    | inl e ↦ subst (λ n. IsNode t n) (same k j e) p.node
    | inr ne ↦ IsNode-frame k j s t p.frame ne (v.nodes j)
  ];
  synced = λ j h. elim (Bool-cases (k == j)) [
    | inl e ↦
        subst (λ n. IsSynced (t.buf n) (has t.lba_root n) (block_at t n)) (same k j e)
          (p.synced (rw (same k j e, ← p.frame.layout.lg_bcnt) h))
    | inr ne ↦
        rw
          (
            p.frame.bufs j ne,
            p.frame.nodes j ne,
            p.frame.blocks j ne (rw (← p.frame.layout.lg_bcnt) h),
          )
          (v.synced j (rw (← p.frame.layout.lg_bcnt) h))
  ];
}

-- It keeps what the users see, if it does so for its own buffer.
pub IsStep-view :
    {k : ℕ} {s t : Bdev} (j : ℕ)
    → IsStep k s t
    → j < s.lg_bcnt
    → ((k == j) ≡ true → view t k ≡ view s k)
    → view t j ≡ view s j
unfolding view
IsStep-view {k} {s} {t} j p h own = elim (Bool-cases (k == j)) [
  | inl e ↦ subst (λ n. view t n ≡ view s n) (same k j e) (own e)
  | inr ne ↦ rw (p.frame.bufs j ne, p.frame.nodes j ne, p.frame.blocks j ne h) refl
]

pub IsStep-trans : {k : ℕ} {s t u : Bdev} → IsStep k s t → IsStep k t u → IsStep k s u
IsStep-trans f g = record {
  frame = IsFrame-trans f.frame g.frame;
  order = g.order;
  count = g.count;
  room = g.room;
  node = g.node;
  synced = λ h. g.synced (rw f.frame.layout.lg_bcnt h);
}

pub unchanged-IsStep : (k : ℕ) {s : Bdev} → IsValid s → IsStep k s s
unchanged-IsStep k {s} v = record {
  frame = IsFrame-refl k s;
  order = v.order;
  count = v.count;
  room = v.room;
  node = v.nodes k;
  synced = v.synced k;
}
