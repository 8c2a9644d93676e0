-- ===== src/Blockdev/Run.antt =====
-- The device with its cache as a memory of blocks: what its callers may do with it, in any order, and
-- the plain memory that the blocks they see follow.
use initramfstool.Base.{
  ℕ, ◌<◌, ◌≡◌, refl, ◌∙◌, arith, Bool, false, List, ◌==◌, if◌then◌else◌, Bool-cases, inl, inr,
  length,
}
use mathlib.Core.Path.{subst}
use initramfstool.Bdev.{Bdev, eok}
use initramfstool.Bdev.{pba, pb_cnt}
use initramfstool.Bdev.Direct.{IsAligned, block_at}
use initramfstool.Bcache.{has, init_dynamic}
use initramfstool.Bcache.Valid.{IsValid, IsStep-IsValid, IsStep-view, view, seen}
use initramfstool.Blockdev.{
  get, get_noread, set, set_dirty, cache_shake, cache_flush, cache_write_back,
}
use initramfstool.Blockdev.Unseen.{IsUnseen, IsUnseen-refl, free-IsUnseen}
use initramfstool.Blockdev.Shaken.{cache_shake-IsUnseen}
use initramfstool.Blockdev.Held.{HasCounters, IsHeld, get_noread-IsUnseen}
use initramfstool.Blockdev.Got.{get-IsUnseen, get_contents, set_dirty-IsStep, view-set_dirty}
use initramfstool.Blockdev.Listed.{cache_flush-IsUnseen, cache_write_back-IsUnseen}

-- A plain memory of blocks.
abbrev pub Memory : Type 0
Memory = ℕ → List ℕ

abbrev pub update : Memory → ℕ → List ℕ → Memory
update m k bytes j = if k == j then bytes else m j

-- A call, whatever it answers, and what it means for the memory. A caller changes and gives back only
-- a block that it holds and that is not temporary.
pub data Call (s : Bdev) (m : Memory) : Bdev → Memory → Type 0 where
  take : (k : ℕ) → HasCounters (cache_shake s).1 k → Call s m (get s k).1 m
  take_noread : (k : ℕ) → HasCounters (cache_shake s).1 k → Call s m (get_noread s k).1 m
  change :
      (k : ℕ) (bytes : List ℕ)
      → IsHeld s k
      → length bytes ≡ s.lg_bsize
      → Call s m (set_dirty s k bytes) (update m k bytes)
  put : (k : ℕ) → IsHeld s k → (s.buf k).tmp ≡ false → Call s m (set s k).1 m
  shake : Call s m (cache_shake s).1 m
  flush : Call s m (cache_flush s).1 m
  write_back : (on_off : Bool) → Call s m (cache_write_back s on_off).1 m

pub data Run (s : Bdev) (m : Memory) : Bdev → Memory → Type 0 where
  start : Run s m s m
  next : {t u : Bdev} {n o : Memory} → Run s m t n → Call t n u o → Run s m u o

-- The cache is well-formed, and what is seen of the blocks is the memory.
pub record Follows (s : Bdev) (m : Memory) : Type 0 where
  pub valid : IsValid s
  pub same : (j : ℕ) → j < s.lg_bcnt → view s j ≡ m j

unseen-Follows : {s t : Bdev} {m : Memory} → Follows s m → IsUnseen s t → Follows t m
unseen-Follows f u = record {
  valid = u.valid;
  same = λ j h. (let h' = rw u.layout.lg_bcnt at h in u.same j h' ∙ f.same j h');
}

change-Follows :
    {s : Bdev} {m : Memory} (k : ℕ) (bytes : List ℕ)
    → Follows s m
    → IsHeld s k
    → length bytes ≡ s.lg_bsize
    → Follows (set_dirty s k bytes) (update m k bytes)
change-Follows {s} {m} k bytes f held size =
    let p = set_dirty-IsStep k s f.valid held bytes size in
    record {
      valid = IsStep-IsValid f.valid p;
      same = λ j h. elim (Bool-cases (k == j)) [
        | inl e ↦
            let same : k ≡ j = ground arith in
            rw e (
              subst (λ (i : ℕ). view (set_dirty s k bytes) i ≡ bytes) same
                (view-set_dirty k s f.valid held bytes))
        | inr ne ↦
            let h' = rw p.frame.layout.lg_bcnt at h in
            rw ne (IsStep-view j p h' (λ own. absurd (ground arith)) ∙ f.same j h')
      ];
    }

set-IsUnseen :
    (k : ℕ) (s : Bdev) → IsValid s → IsHeld s k → (s.buf k).tmp ≡ false → IsUnseen s (set s k).1
unfolding set
set-IsUnseen k s v held tmp = elim (Bool-cases (s.ph_refctr == 0)) [
  | inl e ↦ rw e (IsUnseen-refl v)
  | inr e ↦ rw e (free-IsUnseen k s v held.0 held.1 (λ on. inr tmp))
]

Call-Follows : {s t : Bdev} {m n : Memory} → Call s m t n → Follows s m → Follows t n
Call-Follows {s} (take k c) f = unseen-Follows f (get-IsUnseen k s f.valid c)
Call-Follows {s} (take_noread k c) f = unseen-Follows f (get_noread-IsUnseen k s f.valid c)
Call-Follows (change k bytes held size) f = change-Follows k bytes f held size
Call-Follows {s} (put k held tmp) f = unseen-Follows f (set-IsUnseen k s f.valid held tmp)
Call-Follows {s} shake f = unseen-Follows f (cache_shake-IsUnseen s f.valid)
Call-Follows {s} flush f = unseen-Follows f (cache_flush-IsUnseen s f.valid)
Call-Follows {s} (write_back on_off) f =
    unseen-Follows f (cache_write_back-IsUnseen s on_off f.valid)

-- A new cache follows the device.
pub init_dynamic-Follows :
    (s : Bdev) (cnt : ℕ)
    → IsAligned s
    → length s.fresh ≡ s.lg_bsize
    → Follows (init_dynamic s cnt) (block_at s)
unfolding init_dynamic view seen has block_at pba pb_cnt
init_dynamic-Follows s cnt a size = record {
  valid = record {
    aligned = record {
      some_ph = a.some_ph;
      whole = a.whole;
      lg_fits = a.lg_fits;
      part_fits = a.part_fits;
    };
    order = tt;
    count = refl;
    room = omega arith;
    memory = size;
    nodes = λ j. record {
      lru = refl;
      listed = refl;
      ready = λ l. absurd (ground arith);
      dirty = λ m d. absurd (ground arith);
      size = λ m. absurd (ground arith);
      inside = λ m. absurd (ground arith);
    };
    synced = λ j h m u d. absurd (ground arith);
  };
  same = λ j h. refl;
}

-- The cache refines the memory: after any calls on a well-formed cache that follows a memory, errors of
-- the device and of the allocation among them, it is well-formed and follows what the calls make of the memory.
pub Run-Follows :
    {s : Bdev} {m : Memory} {t : Bdev} {n : Memory} → Run s m t n → Follows s m → Follows t n
Run-Follows start f = f
Run-Follows (next r c) f = Call-Follows c (Run-Follows r f)

-- A block that is read after any calls has what the memory holds for it.
pub Run-get :
    {s t : Bdev} {m n : Memory} (k : ℕ)
    → Run s m t n
    → Follows s m
    → HasCounters (cache_shake t).1 k
    → (get t k).0 ≡ eok
    → ((get t k).1.buf k).contents ≡ n k
Run-get {s} {t} k r f c e =
    let g = Run-Follows r f in
    let (held, read) = get_contents k t g.valid c e in
    let u = get-IsUnseen k t g.valid c in
    read ∙ g.same k (rw (← u.layout.lg_bcnt) ((u.valid.nodes k).inside held.0))
