-- ===== src/Fs/Monad.antt =====
-- The state of the file system, and operations on it that may fail with an error code.
use initramfstool.Base.{ℕ, ◌+◌, ◌-◌, Bool, List, [], ◌∷◌, ◌==◌, if◌then◌else◌}
use initramfstool.Super.{Sblock}
use initramfstool.BlockGroup.{Bgroup}
use initramfstool.Inode.{Inode}

pub record Fs : Type 0 where
  pub sb : Sblock
  pub last_inode_bg_id : ℕ
  pub groups : ℕ → Bgroup
  pub blocks : ℕ → List ℕ
  pub inode : Inode
  pub inode_dirty : Bool
  pub dirty : List ℕ
  pub invalidated : List (ℕ × ℕ)
  pub held : ℕ
  pub outcomes : List ℕ

pub data Result (A : Type 0) : Type 0 where
  ok : A → Result A
  err : ℕ → Result A

abbrev pub M : Type 0 → Type 0
M A = Fs → Result A × Fs

abbrev pub pure : {A : Type 0} → A → M A
pure a s = (ok a, s)

abbrev pub fail : {A : Type 0} → ℕ → M A
fail e s = (err e, s)

abbrev pub continue : {A B : Type 0} → Result A → (A → M B) → M B
continue (ok a) f s = f a s
continue (err e) f s = (err e, s)

infixl 5 ◌>>=◌ ◌>>◌
abbrev pub ◌>>=◌ : {A B : Type 0} → M A → (A → M B) → M B
◌>>=◌ m f s = let (r, s') = m s in continue r f s'

abbrev pub ◌>>◌ : {B : Type 0} → M (Unit {0}) → M B → M B
m >> k = m >>= λ _. k

abbrev pub get : M Fs
get s = (ok s, s)

abbrev pub modify : (Fs → Fs) → M (Unit {0})
modify f s = (ok tt, f s)

abbrev pub after_error : {A : Type 0} → M (Unit {0}) → Result A → Fs → Result A × Fs
after_error cleanup (ok a) s = (ok a, s)
after_error cleanup (err e) s = let (_, s') = cleanup s in (err e, s')

-- `if (rc != EOK) { cleanup; return rc; }`: what the clean-up returns is ignored.
abbrev pub on_error : {A : Type 0} → M A → M (Unit {0}) → M A
on_error m cleanup s = let (r, s') = m s in after_error cleanup r s'

-- A call of the layer below returns the next outcome.
abbrev pub outcome : List ℕ → Fs → Result (Unit {0}) × Fs
outcome [] s = (ok tt, s)
outcome (rc ∷ rest) s = (if rc == 0 then ok tt else err rc, record s { outcomes = rest })

abbrev pub call : M (Unit {0})
call s = outcome s.outcomes s

-- `ext4_trans_block_get`: a reference to the block's buffer.
unfoldable pub block_get : M (Unit {0})
block_get = do call; modify (λ s. record s { held = s.held + 1 })

-- `ext4_block_set` gives the reference back; where it fails it returns before it does.
unfoldable pub block_set : M (Unit {0})
block_set = do call; modify (λ s. record s { held = s.held - 1 })

-- `ext4_trans_try_revoke_block`.
unfoldable pub try_revoke_block : M (Unit {0})
try_revoke_block = call

abbrev pub update {ℓ} : {A : Type ℓ} → (ℕ → A) → ℕ → A → ℕ → A
update f k v j = if k == j then v else f j

-- A write to the data of a buffer.
abbrev pub write_block : Fs → ℕ → List ℕ → Fs
write_block s lba bytes = record s { blocks = update s.blocks lba bytes }

abbrev pub write_group : Fs → ℕ → Bgroup → Fs
write_group s bgid bg = record s { groups = update s.groups bgid bg }

-- `ext4_trans_set_block_dirty`, whose result no modelled caller looks at.
abbrev pub set_block_dirty : Fs → ℕ → Fs
set_block_dirty s lba = record s { dirty = lba ∷ s.dirty }

-- `ext4_bcache_invalidate_lba(bc, from, cnt)`: the ranges that the cache was told to forget.
abbrev pub invalidate_lba : Fs → ℕ → ℕ → Fs
invalidate_lba s from cnt = record s { invalidated = (from, cnt) ∷ s.invalidated }
