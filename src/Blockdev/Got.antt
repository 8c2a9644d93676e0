-- ===== src/Blockdev/Got.antt =====
-- Reading a block and changing it: `ext4_block_get` and `ext4_bcache_set_dirty`.
use initramfstool.Base.{
  ℕ, ◌+◌, ◌<◌, ◌≡◌, refl, sym, ◌∙◌, arith, true, false, ◌&&◌, List, ◌==◌, ==-self, Bool-cases, inl,
  inr, length, u32,
}
use initramfstool.Bdev.{
  Buf, Bdev, eok, first_outcome, later_outcomes, blocks_get_direct, bdif_bread, pba, pb_cnt,
}
use initramfstool.Bdev.Direct.{block_at, length-block_at}
use initramfstool.Bcache.{has, store, free}
use initramfstool.Bcache.Frame.{store-IsFrame}
use initramfstool.Bcache.Valid.{IsValid, IsStep, view, seen}
use initramfstool.Blockdev.{get_noread, read_in, get, set_dirty, cache_shake}
use initramfstool.Blockdev.Unseen.{IsUnseen, IsUnseen-trans, counted, free-IsUnseen, unseen}
use initramfstool.Blockdev.Held.{HasCounters, IsHeld, get_noread-IsUnseen, get_noread-IsHeld}

block_at-store : (k : ℕ) (s : Bdev) (b : Buf) (j : ℕ) → block_at (store s k b) j ≡ block_at s j
unfolding block_at pba pb_cnt
block_at-store k s b j = refl

-- The device has been asked once more.
abbrev asked : Bdev → Bdev
asked s = record s { outcomes = later_outcomes s.outcomes; bread_ctr = u32 (s.bread_ctr + 1) }

module _ (k : ℕ) (s : Bdev) where
  block_at-asked : block_at (asked s) k ≡ block_at s k
  unfolding block_at pba pb_cnt
  block_at-asked = refl

  read_in_done :
      (first_outcome s.outcomes == eok) ≡ true
      → read_in s k ≡ (
        eok,
        store (asked s) k (record (s.buf k) { contents = block_at (asked s) k; uptodate = true }),
      )
  unfolding read_in blocks_get_direct bdif_bread block_at pba pb_cnt
  read_in_done e = rw e refl

  read_in_failed :
      (first_outcome s.outcomes == eok) ≡ false
      → read_in s k ≡ (first_outcome s.outcomes, free (asked s) k)
  unfolding read_in blocks_get_direct bdif_bread
  read_in_failed e = rw e refl

-- A caller that holds the block at `k`.
module _ (k : ℕ) (s : Bdev) (v : IsValid s) (held : IsHeld s k) where
  inside : k < s.lg_bcnt
  inside = (v.nodes k).inside held.0

  -- The buffer is filled from the device.
  filled-IsUnseen :
      (s.buf k).uptodate ≡ false
      → IsUnseen s (store s k (record (s.buf k) { contents = block_at s k; uptodate = true }))
  unfolding view seen
  filled-IsUnseen stale =
      unseen v
        (record {
          frame = store-IsFrame k s (record (s.buf k) { contents = block_at s k; uptodate = true });
          order = v.order;
          count = v.count;
          room = v.room;
          node = rw (==-self k) (
              let p = v.nodes k in
              record {
                lru = p.lru;
                listed = p.listed;
                ready = p.ready;
                dirty = λ m d. refl;
                size = λ m. length-block_at s v.aligned k;
                inside = p.inside;
              });
          synced = rw (==-self k) (λ h m u d. sym (
              block_at-store k s (record (s.buf k) { contents = block_at s k; uptodate = true })
                k));
        })
        (rw (==-self k, held.0, stale) refl)

  not_dirty : (s.buf k).uptodate ≡ false → ((s.buf k).dirty && (s.buf k).uptodate) ≡ false
  not_dirty stale = ground arith

  not_listed : has s.dirty_list k ≡ false
  not_listed = elim (Bool-cases (has s.dirty_list k)) [
    | inl l ↦ (let r = (v.nodes k).ready l in let h = held.1 in absurd (ground arith))
    | inr n ↦ n
  ]

  -- The buffer is changed.
  pub set_dirty-IsStep :
      (bytes : List ℕ) → length bytes ≡ s.lg_bsize → IsStep k s (set_dirty s k bytes)
  unfolding set_dirty
  set_dirty-IsStep bytes size = record {
    frame =
        store-IsFrame k s (record (s.buf k) { contents = bytes; uptodate = true; dirty = true });
    order = v.order;
    count = v.count;
    room = v.room;
    node = rw (==-self k) (
        let p = v.nodes k in
        record {
          lru = p.lru;
          listed = p.listed;
          ready = λ l. absurd (ground (arith, l, not_listed));
          dirty = λ m d. refl;
          size = λ m. size;
          inside = p.inside;
        });
    synced = rw (==-self k) (λ h m u d. absurd (ground arith));
  }

  pub view-set_dirty : (bytes : List ℕ) → view (set_dirty s k bytes) k ≡ bytes
  unfolding set_dirty view seen
  view-set_dirty bytes = rw (==-self k, held.0) refl

asked-IsUnseen : (s : Bdev) → IsValid s → IsUnseen s (asked s)
asked-IsUnseen s v =
    counted s (later_outcomes s.outcomes) s.ph_refctr s.cache_write_back (u32 (s.bread_ctr + 1))
      s.dont_shake v

module _ (k : ℕ) (s : Bdev) (v : IsValid s) (held : IsHeld s k)
    (stale : (s.buf k).uptodate ≡ false) where
  read_in-IsUnseen : IsUnseen s (read_in s k).1
  read_in-IsUnseen =
      let u = asked-IsUnseen s v in
      elim (Bool-cases (first_outcome s.outcomes == eok)) [
        | inl e ↦
            rw (read_in_done k s e)
              (IsUnseen-trans u (filled-IsUnseen k (asked s) u.valid held stale))
        | inr e ↦ rw (read_in_failed k s e) (
            IsUnseen-trans u (
              free-IsUnseen k (asked s) u.valid held.0 held.1
                (λ on. absurd (ground (arith, on, stale)))))
      ]

  read_in_result :
      (read_in s k).0 ≡ eok → IsHeld (read_in s k).1 k × (((read_in s k).1.buf k).uptodate ≡ true)
  read_in_result r = elim (Bool-cases (first_outcome s.outcomes == eok)) [
    | inl e ↦ rw (read_in_done k s e, ==-self k) (held, refl)
    | inr e ↦ absurd (ground (arith, rw (read_in_failed k s e) at r))
  ]

module _ (k : ℕ) (s : Bdev) (v : IsValid s) (counters : HasCounters (cache_shake s).1 k) where
  -- Taking a block changes no block, whatever the device and the allocation answer.
  pub get-IsUnseen : IsUnseen s (get s k).1
  unfolding get
  get-IsUnseen =
      let u = get_noread-IsUnseen k s v counters in
      elim (Bool-cases ((get_noread s k).0 == eok)) [
        | inr e ↦ rw e u
        | inl e ↦ elim (Bool-cases ((get_noread s k).1.buf k).uptodate) [
          | inl fresh ↦ rw (e, fresh) u
          | inr stale ↦
              rw (e, stale)
                (IsUnseen-trans u (
                  read_in-IsUnseen k (get_noread s k).1 u.valid
                    (get_noread-IsHeld k s v counters (ground arith)) stale))
        ]
      ]

  got : (get s k).0 ≡ eok → IsHeld (get s k).1 k × (((get s k).1.buf k).uptodate ≡ true)
  unfolding get
  got r =
      let u = get_noread-IsUnseen k s v counters in
      elim (Bool-cases ((get_noread s k).0 == eok)) [
        | inr e ↦ absurd (ground arith)
        | inl e ↦
            let held = get_noread-IsHeld k s v counters (ground arith) in
            elim (Bool-cases ((get_noread s k).1.buf k).uptodate) [
              | inl fresh ↦ rw (e, fresh) (held, fresh)
              | inr stale ↦
                  rw (e, stale)
                    (read_in_result k (get_noread s k).1 u.valid held stale (rw (e, stale) at r))
            ]
      ]

  uptodate_view :
      (t : Bdev)
      → has t.lba_root k ≡ true
      → (t.buf k).uptodate ≡ true
      → (t.buf k).contents ≡ view t k
  unfolding view seen
  uptodate_view t m u = rw (m, u) refl

  -- A block that has been taken is held, and its buffer has what the block holds.
  pub get_contents :
      (get s k).0 ≡ eok → IsHeld (get s k).1 k × (((get s k).1.buf k).contents ≡ view s k)
  get_contents r =
      let (held, fresh) = got r in
      let u = get-IsUnseen in
      (
        held,
        uptodate_view (get s k).1 held.0 fresh
            ∙ u.same k (rw (← u.layout.lg_bcnt) ((u.valid.nodes k).inside held.0)),
      )
