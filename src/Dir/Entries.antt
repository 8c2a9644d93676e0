-- ===== src/Dir/Entries.antt =====
-- A directory block as the list of its entries.
use initramfstool.Base.{
  ℕ, ◌+◌, ◌%◌, ◌^◌, ◌<◌, ◌≤◌, ◌≡◌, inl, inr, arith, true, false, List, [], ◌∷◌, some, if◌then◌else◌,
  length, Bool-cases,
}
use initramfstool.Super.{Sblock, get_block_size, feature_ro_com, ro_com_metadata_csum}
use initramfstool.Dir.{
  get_inode, get_entry_len, get_name_len, get_inode_type, long_names, tail_at, tail_len, get_tail,
  dir_csum_type,
}
use initramfstool.Dir.Bytes.{
  Memory, SameOn, get16, get32, slice, get16-same, get32-same, slice-same,
}

pub record Entry : Type 0 where
  pub inode : ℕ
  pub entry_len : ℕ
  pub type : ℕ
  pub name : List ℕ

-- The entry fits its length, which is a multiple of 4, and its name has at most 255 bytes.
pub record IsEntry (e : Entry) : Type 0 where
  pub fits : 8 + length e.name ≤ e.entry_len
  pub aligned : e.entry_len % 4 ≡ 0
  pub short : length e.name < 256

-- The bytes at `p` are those of the entry.
pub record IsAt (sb : Sblock) (m : Memory) (p : ℕ) (e : Entry) : Type 0 where
  pub inode : get_inode m p ≡ e.inode
  pub entry_len : get_entry_len m p ≡ e.entry_len
  pub name_len : get_name_len sb m p ≡ length e.name
  pub type : get_inode_type sb m p ≡ e.type
  pub name : slice m (p + 8) (length e.name) ≡ e.name

-- The entries fill the bytes from `p` to `stop`.
abbrev pub IsChain : Sblock → Memory → ℕ → ℕ → List Entry → Type 0
IsChain sb m p stop [] = p ≡ stop
IsChain sb m p stop (e ∷ es) = IsAt sb m p e × IsEntry e × IsChain sb m (p + e.entry_len) stop es

-- Where the entries end: at the tail with the checksum, or at the end of the block.
abbrev pub room : Sblock → ℕ
room sb = if feature_ro_com sb ro_com_metadata_csum then tail_at sb else get_block_size sb

-- A block whose entries are `es`, with its tail where there are checksums.
pub record IsBlock (sb : Sblock) (m : Memory) (es : List Entry) : Type 0 where
  pub chain : IsChain sb m 0 (room sb) es
  pub tail : feature_ro_com sb ro_com_metadata_csum ≡ true → get_tail sb m ≡ some (tail_at sb)
  pub typed : feature_ro_com sb ro_com_metadata_csum ≡ true → long_names sb ≡ false
  pub large : tail_len ≤ get_block_size sb
  pub small : get_block_size sb < 2 ^ 16

pub chain-le :
    (sb : Sblock) (m : Memory) (p stop : ℕ) (es : List Entry) → IsChain sb m p stop es → p ≤ stop
chain-le sb m p stop [] c = omega arith
chain-le sb m p stop (e ∷ es) c = omega (arith, chain-le sb m (p + e.entry_len) stop es c.2)

module _ (sb : Sblock) (m m' : Memory) where
  pub IsAt-same :
      (p : ℕ) (e : Entry) → SameOn m m' p (p + 8 + length e.name) → IsAt sb m p e → IsAt sb m' p e
  unfolding get_inode get_entry_len get_name_len get_inode_type
  IsAt-same p e same a = record {
    inode = rw (get32-same m m' p (λ x h k. same x h (omega arith))) a.inode;
    entry_len =
        rw (get16-same m m' (p + 4) (λ x h k. same x (omega arith) (omega arith))) a.entry_len;
    name_len =
        rw (same (p + 6) (omega arith) (omega arith), same (p + 7) (omega arith) (omega arith))
          a.name_len;
    type = rw (same (p + 7) (omega arith) (omega arith)) a.type;
    name =
        rw (slice-same m m' (p + 8) (length e.name) (λ x h k. same x (omega arith) (omega arith)))
          a.name;
  }

  pub IsChain-same :
      (p stop : ℕ) (es : List Entry)
      → SameOn m m' p stop
      → IsChain sb m p stop es
      → IsChain sb m' p stop es
  IsChain-same p stop [] same c = c
  IsChain-same p stop (e ∷ es) same c =
      let f = c.1.fits in
      let below = chain-le sb m (p + e.entry_len) stop es c.2 in
      (
        IsAt-same p e (λ x h k. same x h (omega arith)) c.0,
        c.1,
        IsChain-same (p + e.entry_len) stop es (λ x h k. same x (omega arith) k) c.2,
      )

pub tail_fields :
    (sb : Sblock) (m : Memory)
    → get_tail sb m ≡ some (tail_at sb)
    → (get32 m (tail_at sb) ≡ 0)
      × (get16 m (tail_at sb + 4) ≡ tail_len)
      × (m (tail_at sb + 6) ≡ 0)
      × (m (tail_at sb + 7) ≡ dir_csum_type)
unfolding get_tail
tail_fields sb m h = ground arith

pub room-le :
    {sb : Sblock} {m : Memory} {es : List Entry} → IsBlock sb m es → room sb ≤ get_block_size sb
room-le {sb} b = elim (Bool-cases (feature_ro_com sb ro_com_metadata_csum)) [
  | inl e ↦ rw e (omega arith)
  | inr e ↦ rw e (omega arith)
]
