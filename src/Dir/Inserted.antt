-- ===== src/Dir/Inserted.antt =====
-- An insertion into a block is an insertion into the list of its entries.
use initramfstool.Base.{
  ℕ, ◌≡◌, refl, sym, ◌∙◌, arith, true, false, List, [], ◌∷◌, Option, none, some,
}
use mathlib.Core.Path.{subst}
use initramfstool.Super.{Sblock}
use initramfstool.Dir.{InodeRef, Insert, inserted, no_space, set_csum, try_insert_entry}
use initramfstool.Dir.Bytes.{Memory, same_name}
use initramfstool.Dir.Entries.{Entry, IsBlock}
use initramfstool.Dir.Written.{IsChild, written}
use initramfstool.Dir.Csum.{IsResult, changed-IsResult}
use initramfstool.Dir.Sizes.{size}
use initramfstool.Dir.Walked.{insert, Fits, walk}
use initramfstool.Dir.Numbers.{number_of, number_in, number_in-eq, Adds, insert-Adds}
use initramfstool.Dir.Found.{has_name}

module _ (sb : Sblock) (ref child : InodeRef) (name : List ℕ) (m : Memory) where
  -- What an insertion into the list of entries gives, the code gives.
  abbrev pub Inserts : Option (List Entry) → Insert → Type 0
  Inserts none r = r ≡ no_space
  Inserts (some es) r = (m' : Memory) × (r ≡ inserted m') × IsResult sb ref m es m'

  module _ {all : List Entry} (b : IsBlock sb m all) where
    finish :
        (es? : Option (List Entry)) (r : Insert) → Fits sb ref child name m 0 es? r → Inserts es? r
    finish none r f = f
    finish (some es) r (m1, done, chain, same) =
        (set_csum sb ref m1, done, changed-IsResult sb ref m es m1 b chain same)

    -- In a well-formed block an entry goes into the first entry that has room for it, and without such
    -- a one the answer is ENOSPC. Otherwise the block has the list of its entries with the new one put
    -- in, its checksum verifies, and nothing past the block has changed. The number of the inode is
    -- not 0 and has 32 bits, and the name has at most 255 bytes.
    pub try_insert_entry-insert :
        IsChild child name
        → Inserts
            (insert (λ len. written sb len child name) (size name) all)
            (try_insert_entry sb ref child name m)
    unfolding try_insert_entry
    try_insert_entry-insert c =
        finish _ _ (walk sb ref child name m b c _ 0 all b.chain (omega arith))

same_name_self : (xs : List ℕ) → same_name xs xs ≡ true
unfolding same_name
same_name_self [] = refl
same_name_self (x ∷ xs) = ground (arith, same_name_self xs)

module _ (sb : Sblock) (ref child : InodeRef) (name : List ℕ) (m : Memory) {all : List Entry}
    (b : IsBlock sb m all) (c : IsChild child name) where
  abbrev entry : ℕ → Entry
  entry len = written sb len child name

  entry-has_name : (len : ℕ) → has_name name (entry len) ≡ true
  entry-has_name len = let u = c.used in ground (arith, same_name_self name)

  added :
      (es? : Option (List Entry)) (m' : Memory)
      → Adds entry (size name) name child.index entry-has_name (λ len. refl) all es?
      → Inserts sb ref child name m es? (inserted m')
      → number_of name all ≡ 0
      → (number_in sb name m' ≡ child.index)
        × ((other : List ℕ)
            → same_name other name ≡ false
            → number_in sb other m' ≡ number_in sb other m)
  added none m' a i missing = cc
  added (some es) m' (new, old) (m1, done, r) missing =
      let same : m' ≡ m1 = ground arith in
      rw (same, number_in-eq sb m1 name r.block)
        (
          new missing,
          λ other apart.
              rw (number_in-eq sb m1 other r.block, number_in-eq sb m other b)
                (old other (λ len. ground arith)),
        )

  -- After an insertion of a name that the block had not, a search for the name finds the inode, and a
  -- search for any other name finds what it found before. The block is well-formed, the number of the
  -- inode is not 0 and has 32 bits, and the name has at most 255 bytes.
  pub number_in-try_insert_entry :
      {m' : Memory}
      → number_in sb name m ≡ 0
      → try_insert_entry sb ref child name m ≡ inserted m'
      → (number_in sb name m' ≡ child.index)
        × ((other : List ℕ)
            → same_name other name ≡ false
            → number_in sb other m' ≡ number_in sb other m)
  number_in-try_insert_entry {m'} missing done =
      added (insert entry (size name) all) m'
        (insert-Adds entry (size name) name child.index entry-has_name (λ len. refl) all)
        (subst (Inserts sb ref child name m (insert entry (size name) all)) done
          (try_insert_entry-insert sb ref child name m b c))
        (sym (number_in-eq sb m name b) ∙ missing)
