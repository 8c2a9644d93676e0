-- ===== src/Dir/Sizes.antt =====
-- The sizes that `ext4_dir_try_insert_entry` computes.
use initramfstool.Base.{ℕ, ◌+◌, ◌-◌, ◌*◌, ◌/◌, ◌^◌, ◌<◌, ◌≤◌, ◌≡◌, arith, List, length}
use initramfstool.Super.{Sblock}
use initramfstool.Dir.{pad, required_len, used_size, free_space}
use initramfstool.Dir.Bytes.{Memory}
use initramfstool.Dir.Entries.{Entry, IsEntry, IsAt}

-- The bytes that an entry with the name needs: a multiple of 4.
abbrev pub size : List ℕ → ℕ
size name = (length name + 11) / 4 * 4

pub required_len-eq : (name : List ℕ) → length name < 256 → required_len name ≡ size name
unfolding required_len pad
required_len-eq name h = ground arith

module _ (sb : Sblock) (m : Memory) (p : ℕ) (e : Entry) (a : IsAt sb m p e) (v : IsEntry e) where
  pub used_size-eq : used_size sb m p ≡ size e.name
  unfolding used_size pad
  used_size-eq = let n = a.name_len in let s = v.short in ground arith

  pub size-le : size e.name ≤ e.entry_len
  size-le = let f = v.fits in let k = v.aligned in omega arith

  pub free_space-eq : e.entry_len < 2 ^ 16 → free_space sb m p ≡ e.entry_len - size e.name
  unfolding free_space
  free_space-eq h = let l = a.entry_len in omega (arith, used_size-eq, size-le)
