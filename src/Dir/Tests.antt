-- ===== src/Dir/Tests.antt =====
-- Runs on a block of a directory with "." and "..", and the theorems at it.
use initramfstool.Base.{
  ℕ, ◌-◌, ◌<◌, ◌≡◌, refl, ◌∙◌, IsBytes-get_or, arith, true, false, List, [], ◌∷◌, some, ltb,
  if◌then◌else◌, get_or,
}
use initramfstool.Super.{Sblock, get_block_size, feature_ro_com, ro_com_metadata_csum}
use initramfstool.Super.Tests.{disk}
use initramfstool.Inode.Fields.{get_size, is_type, inode_type, get_mode}
use initramfstool.Inode.Tests.{file}
use initramfstool.Fs.Monad.{ok, err}
use initramfstool.Dir.{
  InodeRef, inserted, get_inode, get_entry_len, get_name_len, get_inode_type, long_names, get_tail,
  find_in_block, try_insert_entry, insert_loop, is_free, has_space, required_len, used_size,
  free_space, pad, split, remove_at,
}
use initramfstool.Dir.Bytes.{Memory, get16, get32, slice, same_name}
use initramfstool.Dir.Found.{lookup, find_in_block-lookup}
use initramfstool.Dir.Written.{IsChild, written}
use initramfstool.Dir.Csum.{IsResult}
use initramfstool.Dir.Sizes.{size}
use initramfstool.Dir.Walked.{insert}
use initramfstool.Dir.Numbers.{number_of, number_in, number_in-eq, IsOnce}
use initramfstool.Dir.Inserted.{Inserts, try_insert_entry-insert, number_in-try_insert_entry}
use initramfstool.Dir.Merged.{remove}
use initramfstool.Dir.Removed.{remove_at-remove, number_in-remove_at}
use initramfstool.Dir.Blocks.{Store, Layer, bad_dx_dir, find_linear, total_blocks}
use initramfstool.Dir.Searched.{IsSearch, number_among, find_linear-IsSearch}
use initramfstool.Dir.Iterator.{Iter, Outcome, seek, next}
use initramfstool.Dir.Published.{LiesAfter, next-LiesAfter}
use initramfstool.Dir.Stepped.{IsOn, Ends, next-Ends}
use initramfstool.Dir.Entries.{Entry, IsBlock}

-- Blocks of 1024 bytes, with checksums.
abbrev leaf_disk : Sblock
leaf_disk = record disk { log_block_size = 0; features_read_only = 0x401 }

abbrev dot : List ℕ
dot = b'.' ∷ []

abbrev dots : List ℕ
dots = b'.' ∷ b'.' ∷ []

abbrev readme : List ℕ
readme = b'r' ∷ b'e' ∷ b'a' ∷ b'd' ∷ b'm' ∷ b'e' ∷ []

abbrev front : List ℕ
front =
    2 ∷ 0 ∷ 0 ∷ 0 ∷ 12 ∷ 0 ∷ 1 ∷ 2 ∷ b'.' ∷ 0 ∷ 0 ∷ 0 ∷ 2 ∷ 0 ∷ 0 ∷ 0 ∷ 0xe8 ∷ 3 ∷ 2 ∷ 2 ∷ b'.'
    ∷ b'.' ∷ []

abbrev back : List ℕ
back = 0 ∷ 0 ∷ 0 ∷ 0 ∷ 12 ∷ 0 ∷ 0 ∷ 0xde ∷ []

abbrev leaf : Memory
leaf x = if ltb x 1012 then get_or front x 0 else get_or back (x - 1012) 0

abbrev first : Entry
first = record { inode = 2; entry_len = 12; type = 2; name = dot }

abbrev second : Entry
second = record { inode = 2; entry_len = 1000; type = 2; name = dots }

abbrev entries : List Entry
entries = first ∷ second ∷ []

abbrev folder : InodeRef
folder = record { index = 2; inode = record file { mode = 0x41ed; size_lo = 1024 } }

abbrev child : InodeRef
child = record { index = 12; inode = file }

has_csum : feature_ro_com leaf_disk ro_com_metadata_csum ≡ true
unfolding feature_ro_com
has_csum = refl

block_size : get_block_size leaf_disk ≡ 1024
unfolding get_block_size
block_size = refl

leaf-IsBlock : IsBlock leaf_disk leaf entries
unfolding feature_ro_com get_block_size get_inode get_entry_len get_name_len get_inode_type
    long_names get32 get16 slice get_tail
leaf-IsBlock = record {
  chain = (
    record { inode = refl; entry_len = refl; name_len = refl; type = refl; name = refl },
    record { fits = omega arith; aligned = refl; short = omega arith },
    (
      record { inode = refl; entry_len = refl; name_len = refl; type = refl; name = refl },
      record { fits = omega arith; aligned = refl; short = omega arith },
      refl,
    ),
  );
  tail = λ e. refl;
  typed = λ e. refl;
  large = omega arith;
  small = omega arith;
}

find_in_block-lookup_example : find_in_block leaf_disk dots leaf ≡ lookup 0 dots entries
find_in_block-lookup_example = find_in_block-lookup leaf_disk leaf dots leaf-IsBlock

child-IsChild : IsChild child readme
child-IsChild = record {
  used = omega arith;
  fits = omega arith;
  short = omega arith;
  bytes = omega arith;
}

try_insert_entry-insert_example :
    Inserts leaf_disk folder child readme leaf
      (insert (λ len. written leaf_disk len child readme) (size readme) entries)
      (try_insert_entry leaf_disk folder child readme leaf)
try_insert_entry-insert_example =
    try_insert_entry-insert leaf_disk folder child readme leaf leaf-IsBlock child-IsChild

readme-missing : number_in leaf_disk readme leaf ≡ 0
unfolding number_of same_name
readme-missing = number_in-eq leaf_disk leaf readme leaf-IsBlock ∙ refl

-- The entry "..", of 1000 bytes, keeps 12.
leaf_splits :
    try_insert_entry leaf_disk folder child readme leaf
    ≡ inserted (split leaf_disk folder child readme leaf 12)
unfolding try_insert_entry insert_loop is_free has_space required_len used_size free_space pad
    get_inode get_entry_len get_name_len get_inode_type long_names get32 get16 get_block_size
leaf_splits = refl

number_in-try_insert_entry_example :
    let m' = split leaf_disk folder child readme leaf 12 in
    (number_in leaf_disk readme m' ≡ 12)
    × ((other : List ℕ)
        → same_name other readme ≡ false
        → number_in leaf_disk other m' ≡ number_in leaf_disk other leaf)
number_in-try_insert_entry_example =
    number_in-try_insert_entry leaf_disk folder child readme leaf leaf-IsBlock child-IsChild
      readme-missing leaf_splits

dots-found : find_in_block leaf_disk dots leaf ≡ ok 12
unfolding lookup same_name
dots-found = find_in_block-lookup leaf_disk leaf dots leaf-IsBlock ∙ refl

remove_at-remove_example :
    IsResult leaf_disk folder leaf (remove dots entries) (remove_at leaf_disk folder leaf 12)
remove_at-remove_example = remove_at-remove leaf_disk folder dots leaf leaf-IsBlock dots-found

dots-IsOnce : IsOnce dots entries
unfolding number_of same_name
dots-IsOnce = (λ h. cc, (λ h. refl, tt))

number_in-remove_at_example :
    (number_in leaf_disk dots (remove_at leaf_disk folder leaf 12) ≡ 0)
    × ((other : List ℕ)
        → same_name other dots ≡ false
        → number_in leaf_disk other (remove_at leaf_disk folder leaf 12)
          ≡ number_in leaf_disk other leaf)
number_in-remove_at_example =
    number_in-remove_at leaf_disk folder dots leaf leaf-IsBlock dots-IsOnce dots-found

-- The directory has that one block, at block 7.
abbrev layer : Layer
layer = record {
  dblk_idx = λ i. ok 7;
  append_dblk = λ s. (err 28, s);
  dx_find_entry = λ name s. (bad_dx_dir, s);
  dx_add_entry = λ name c s. (bad_dx_dir, s);
}

abbrev store : Store
store = record {
  blocks = λ i. leaf;
  parent = folder.inode;
  parent_dirty = false;
  held = 0;
  outcomes = [];
}

find_linear-IsSearch_example :
    IsSearch leaf_disk dots layer
      (λ i. 7)
      (λ i. entries)
      store
      (number_among dots (λ i. entries) (total_blocks leaf_disk store) 0)
      (find_linear leaf_disk dots layer store)
find_linear-IsSearch_example =
    find_linear-IsSearch leaf_disk dots layer (λ i. 7) (λ i. entries) store refl
      (λ i h. (refl, leaf-IsBlock))

front-bytes : (x : ℕ) → get_or front x 0 < 256
front-bytes x = IsBytes-get_or front x (omega arith)

leaf-bytes : (x : ℕ) → leaf x < 256
leaf-bytes x = ground (arith, front-bytes x, IsBytes-get_or back (x - 1012) (omega arith))

abbrev at_first : Iter
at_first = record { lb_id = 7; curr_off = 0; curr = some 0 }

at_first-IsOn : IsOn leaf_disk layer at_first store 0
unfolding get_entry_len get16 get_size is_type inode_type get_mode
at_first-IsOn = record { curr = refl; len = omega arith; inside = omega arith }

next-Ends_example :
    (p : Outcome) × (next leaf_disk layer at_first store ≡ some p) × Ends leaf_disk layer at_first p
next-Ends_example = next-Ends leaf_disk layer at_first store at_first-IsOn

next-LiesAfter_example :
    LiesAfter leaf_disk (some (seek leaf_disk layer at_first store 12))
    × LiesAfter leaf_disk (next leaf_disk layer at_first store)
next-LiesAfter_example =
    next-LiesAfter leaf_disk layer at_first store 12 (λ j. leaf-bytes) (rw block_size (omega arith))
      (rw block_size (omega arith))
