-- ===== src/Blockdev/Held.antt =====
-- Taking a block that need not be read: `ext4_bcache_alloc` and `ext4_block_get_noread`.
use initramfstool.Base.{
  ℕ, suc, ◌^◌, ◌<◌, ◌≡◌, arith, true, ◌==◌, ==-self, Bool-cases, inl, inr, ltb,
}
use initramfstool.Bdev.{Bdev, eok, first_outcome}
use initramfstool.Bcache.{has, get_found, add_buf, alloc}
use initramfstool.Bcache.Sets.{inserted_self}
use initramfstool.Bcache.Found.{get_found-lba_root, get_found-refctr}
use initramfstool.Bcache.Valid.{IsValid}
use initramfstool.Blockdev.{get_noread, cache_shake}
use initramfstool.Blockdev.Unseen.{IsUnseen, IsUnseen-refl, IsUnseen-trans, alloc-IsUnseen}
use initramfstool.Blockdev.Shaken.{cache_shake-IsUnseen}

-- No counter of 32 bits overflows when the buffer at `k` is taken.
abbrev pub HasCounters : Bdev → ℕ → Type 0
HasCounters s k = (suc (s.buf k).refctr < 2 ^ 32) × (suc s.ref_blocks < 2 ^ 32)

-- A caller holds the block at `k`.
abbrev pub IsHeld : Bdev → ℕ → Type 0
IsHeld s k = (has s.lba_root k ≡ true) × (0 < (s.buf k).refctr)

module _ (k : ℕ) (s : Bdev) where
  get_found-IsHeld :
      IsValid s → has s.lba_root k ≡ true → suc (s.buf k).refctr < 2 ^ 32 → IsHeld (get_found s k) k
  get_found-IsHeld v member small = (
    rw (get_found-lba_root k s v member) member,
    rw (get_found-refctr k s v member) (omega arith),
  )

  alloc-IsHeld :
      IsValid s → suc (s.buf k).refctr < 2 ^ 32 → (alloc s k).0 ≡ eok → IsHeld (alloc s k).1 k
  unfolding alloc add_buf
  alloc-IsHeld v small r = elim (Bool-cases (has s.lba_root k)) [
    | inl member ↦ rw member (get_found-IsHeld v member small)
    | inr new ↦ elim (Bool-cases (first_outcome s.outcomes == eok)) [
      | inl e ↦ rw (new, e, ==-self k) (inserted_self k s.lba_root, omega arith)
      | inr e ↦ absurd (ground arith)
    ]
  ]

module _ (k : ℕ) (s : Bdev) where
  pub get_noread-IsUnseen :
      IsValid s → HasCounters (cache_shake s).1 k → IsUnseen s (get_noread s k).1
  unfolding get_noread
  get_noread-IsUnseen v counters = elim (Bool-cases (s.ph_refctr == 0)) [
    | inl e ↦ rw e (IsUnseen-refl v)
    | inr e ↦ elim (Bool-cases (ltb k s.lg_bcnt)) [
      | inr out ↦ rw (e, out) (IsUnseen-refl v)
      | inl h ↦
          let u = cache_shake-IsUnseen s v in
          elim (Bool-cases ((cache_shake s).0 == eok)) [
            | inl r ↦
                rw (e, h, r)
                  (IsUnseen-trans u (
                    alloc-IsUnseen k (cache_shake s).1 u.valid (rw u.layout.lg_bcnt (ground arith))
                      counters.0 counters.1))
            | inr r ↦ rw (e, h, r) u
          ]
    ]
  ]

  pub get_noread-IsHeld :
      IsValid s
      → HasCounters (cache_shake s).1 k
      → (get_noread s k).0 ≡ eok
      → IsHeld (get_noread s k).1 k
  unfolding get_noread
  get_noread-IsHeld v counters r = elim (Bool-cases (s.ph_refctr == 0)) [
    | inl e ↦ absurd (ground arith)
    | inr e ↦ elim (Bool-cases (ltb k s.lg_bcnt)) [
      | inr out ↦ absurd (ground arith)
      | inl h ↦ elim (Bool-cases ((cache_shake s).0 == eok)) [
        | inl q ↦
            rw (e, h, q)
              (alloc-IsHeld k (cache_shake s).1 (cache_shake-IsUnseen s v).valid counters.0
                (rw (e, h, q) at r))
        | inr q ↦ absurd (ground arith)
      ]
    ]
  ]
