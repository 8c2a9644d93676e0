-- ===== src/Dir/Written.antt =====
-- What the writes of an entry leave in a block: `ext4_dir_write_entry`, `ext4_dir_en_set_entry_len`
-- and `ext4_dir_set_csum`.
use initramfstool.Base.{
  ℕ, ◌+◌, ◌^◌, ◌<◌, ◌≡◌, inl, inr, ◌∙◌, arith, List, if◌then◌else◌, length, IsBytes, u16,
  bit_or-disjoint,
}
use initramfstool.Super.{Sblock}
use initramfstool.Inode.Fields.{inode_type}
use initramfstool.Dir.{
  InodeRef, get_inode, set_inode, get_entry_len, set_entry_len, get_name_len, set_name_len,
  get_inode_type, set_inode_type, long_names, entry_type, write_entry,
}
use initramfstool.Dir.Bytes.{
  Memory, SameOn, SameOutside, get16, put8, put16, put32, put16-outside, copy-outside, slice-copy,
  get32-put32, get16-put16, get32-same, get16-same, slice-same,
}
use initramfstool.Dir.Entries.{Entry, IsAt}

-- The type that a written entry reads back as.
abbrev pub written_type : Sblock → InodeRef → ℕ
written_type sb child = if long_names sb then 0 else entry_type (inode_type sb child.inode)

abbrev pub written : Sblock → ℕ → InodeRef → List ℕ → Entry
written sb len child name = record {
  inode = child.index;
  entry_len = len;
  type = written_type sb child;
  name = name;
}

-- What a caller gives: the number of an inode, and a name of 1 to 255 bytes.
pub record IsChild (child : InodeRef) (name : List ℕ) : Type 0 where
  pub used : 0 < child.index
  pub fits : child.index < 2 ^ 32
  pub short : length name < 256
  pub bytes : IsBytes name

module _ (sb : Sblock) (m : Memory) (p len : ℕ) (child : InodeRef) (name : List ℕ) where
  abbrev head : Memory
  head =
      set_name_len sb
        (set_entry_len
          (set_inode (set_inode_type sb m p (entry_type (inode_type sb child.inode))) p child.index)
          p len)
        p (u16 (length name))

  head-outside : SameOutside m head p (p + 8)
  unfolding set_name_len set_entry_len set_inode set_inode_type put32 put16 put8
  head-outside x (inl h) = ground arith
  head-outside x (inr h) = ground arith

  pub write_entry-outside :
      SameOutside m (write_entry sb m p len child name) p (p + 8 + length name)
  unfolding write_entry
  write_entry-outside x (inl h) =
      copy-outside head (p + 8) name x (inl (omega arith)) ∙ head-outside x (inl h)
  write_entry-outside x (inr h) =
      copy-outside head (p + 8) name x (inr (omega arith)) ∙ head-outside x (inr (omega arith))

  head-same : SameOn head (write_entry sb m p len child name) p (p + 8)
  unfolding write_entry
  head-same x h k = copy-outside head (p + 8) name x (inl (omega arith))

  module _ (c : IsChild child name) (fits : len < 2 ^ 16) where
    abbrev numbered : Memory
    numbered =
        set_inode (set_inode_type sb m p (entry_type (inode_type sb child.inode))) p child.index

    after_number : SameOn numbered head p (p + 4)
    unfolding set_name_len set_entry_len put16 put8
    after_number x h k = ground arith

    head-inode : get_inode head p ≡ child.index
    unfolding get_inode set_inode
    head-inode =
        get32-same numbered head p after_number
        ∙ get32-put32 (set_inode_type sb m p (entry_type (inode_type sb child.inode))) p child.index
            c.fits

    head-entry_len : get_entry_len head p ≡ len
    unfolding get_entry_len set_name_len set_entry_len set_inode set_inode_type put32 put16 put8
        get16
    head-entry_len = ground arith

    head-name_len : get_name_len sb head p ≡ length name
    unfolding get_name_len set_name_len set_entry_len set_inode set_inode_type put32 put16 put8
    head-name_len = let f = c.short in ground (arith, bit_or-disjoint 8 0 (length name))

    head-type : get_inode_type sb head p ≡ written_type sb child
    unfolding get_inode_type set_name_len set_entry_len set_inode set_inode_type put32 put16 put8
        long_names entry_type
    head-type = ground arith

    pub write_entry-IsAt : IsAt sb (write_entry sb m p len child name) p (written sb len child name)
    unfolding get_inode get_entry_len get_name_len get_inode_type write_entry
    write_entry-IsAt =
        let same = head-same in
        record {
          inode =
              get32-same head (write_entry sb m p len child name) p
                (λ x h k. same x h (omega arith))
              ∙ head-inode;
          entry_len =
              get16-same head (write_entry sb m p len child name) (p + 4)
                (λ x h k. same x (omega arith) (omega arith))
              ∙ head-entry_len;
          name_len =
              rw
                (same (p + 6) (omega arith) (omega arith), same (p + 7) (omega arith) (omega arith))
                head-name_len;
          type = rw (same (p + 7) (omega arith) (omega arith)) head-type;
          name = slice-copy head (p + 8) name c.bytes;
        }

-- A shorter entry keeps the rest.
pub set_entry_len-IsAt :
    (sb : Sblock) (m : Memory) (p len : ℕ) (e : Entry)
    → len < 2 ^ 16
    → IsAt sb m p e
    → IsAt sb (set_entry_len m p len) p (record e { entry_len = len })
unfolding set_entry_len get_inode get_entry_len get_name_len get_inode_type
set_entry_len-IsAt sb m p len e h a =
    let out = put16-outside m (p + 4) len in
    record {
      inode = get32-same m (put16 m (p + 4) len) p (λ x i j. out x (inl (omega arith))) ∙ a.inode;
      entry_len = get16-put16 m (p + 4) len h;
      name_len = rw (out (p + 6) (inr (omega arith)), out (p + 7) (inr (omega arith))) a.name_len;
      type = rw (out (p + 7) (inr (omega arith))) a.type;
      name =
          slice-same m (put16 m (p + 4) len) (p + 8) (length e.name)
            (λ x i j. out x (inr (omega arith)))
          ∙ a.name;
    }
