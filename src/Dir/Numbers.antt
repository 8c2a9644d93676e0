-- ===== src/Dir/Numbers.antt =====
-- A directory block as a map from names to the numbers of inodes, 0 for a name that it has not.
use initramfstool.Base.{
  ℕ, ◌+◌, ◌-◌, ◌≡◌, inl, inr, refl, arith, true, false, List, [], ◌∷◌, Option, none, some,
  if◌then◌else◌, Bool-cases, ==_iff, ap₂,
}
use initramfstool.Super.{Sblock}
use initramfstool.Fs.Monad.{Result, ok, err}
use initramfstool.Dir.{get_inode, find_in_block}
use initramfstool.Dir.Bytes.{Memory, same_name}
use initramfstool.Dir.Entries.{Entry, IsChain, IsBlock, room}
use initramfstool.Dir.Found.{has_name, lookup, find_in_block-lookup}
use initramfstool.Dir.Walked.{insert, before, reusable, splittable}
use initramfstool.Dir.Sizes.{size}
use initramfstool.Dir.Merged.{remove_after, remove}

unfoldable pub number_of : List ℕ → List Entry → ℕ
number_of name [] = 0
number_of name (e ∷ es) = let rest = number_of name es in if has_name name e then e.inode else rest

-- The inode of the entry that a search found.
abbrev pub number_at : Memory → Result ℕ → ℕ
number_at m (ok de) = get_inode m de
number_at m (err e) = 0

-- The inode that a search of the block finds.
abbrev pub number_in : Sblock → List ℕ → Memory → ℕ
number_in sb name m = number_at m (find_in_block sb name m)

number_at-lookup :
    (sb : Sblock) (m : Memory) (name : List ℕ) (p stop : ℕ) (es : List Entry)
    → IsChain sb m p stop es
    → number_at m (lookup p name es) ≡ number_of name es
unfolding lookup number_of
number_at-lookup sb m name p stop [] c = refl
number_at-lookup sb m name p stop (e ∷ es) c = elim (Bool-cases (has_name name e)) [
  | inl h ↦ rw h c.0.inode
  | inr h ↦ rw h (number_at-lookup sb m name (p + e.entry_len) stop es c.2)
]

pub number_in-eq :
    (sb : Sblock) (m : Memory) (name : List ℕ) {es : List Entry}
    → IsBlock sb m es
    → number_in sb name m ≡ number_of name es
number_in-eq sb m name {es} b =
    rw (find_in_block-lookup sb m name b) (number_at-lookup sb m name 0 (room sb) es b.chain)

-- Where the entries have room, an insertion adds one name and leaves the others.
module _ (new : ℕ → Entry) (need : ℕ) (name : List ℕ) (index : ℕ)
    (named : (len : ℕ) → has_name name (new len) ≡ true)
    (numbered : (len : ℕ) → (new len).inode ≡ index) where
  abbrev pub Adds : List Entry → Option (List Entry) → Type 0
  Adds es none = Unit
  Adds es (some es') =
      (number_of name es ≡ 0 → number_of name es' ≡ index)
      × ((other : List ℕ)
          → ((len : ℕ) → has_name other (new len) ≡ false)
          → number_of other es' ≡ number_of other es)

  before-Adds :
      (e : Entry) (es : List Entry) (es? : Option (List Entry))
      → Adds es es?
      → Adds (e ∷ es) (before e es?)
  unfolding number_of
  before-Adds e es none a = tt
  before-Adds e es (some es') a = (λ h. ground (arith, a.0), λ other k. ground (arith, a.1 other k))

  pub insert-Adds : (es : List Entry) → Adds es (insert new need es)
  unfolding insert number_of
  insert-Adds [] = tt
  insert-Adds (e ∷ es) = elim (Bool-cases (reusable need e)) [
    | inl h ↦
        let len = e.entry_len in
        rw h (λ k. ground (arith, named len, numbered len), λ other k. ground (arith, k len))
    | inr h ↦ elim (Bool-cases (splittable need e)) [
      | inl k ↦
          let len = e.entry_len - size e.name in
          rw (h, k) (λ l. ground (arith, named len, numbered len), λ other l. ground (arith, l len))
      | inr k ↦ rw (h, k) (before-Adds e es (insert new need es) (insert-Adds es))
    ]
  ]

-- At most one used entry has the name.
abbrev pub IsOnce : List ℕ → List Entry → Type 0
IsOnce name [] = Unit
IsOnce name (e ∷ es) = (has_name name e ≡ true → number_of name es ≡ 0) × IsOnce name es

same_name-eq : (xs ys : List ℕ) → same_name xs ys ≡ true → xs ≡ ys
unfolding same_name
same_name-eq [] [] h = refl
same_name-eq [] (y ∷ ys) h = cc
same_name-eq (x ∷ xs) [] h = cc
same_name-eq (x ∷ xs) (y ∷ ys) h =
    ap₂ ◌∷◌ ((==_iff x y).0 (ground arith)) (same_name-eq xs ys (ground arith))

-- A removal takes one name away and leaves the others.
module _ (name : List ℕ) where
  abbrev Loses : List Entry → List Entry → Type 0
  Loses es es' =
      (IsOnce name es → number_of name es' ≡ 0)
      × ((other : List ℕ) → same_name other name ≡ false → number_of other es' ≡ number_of other es)

  distinct :
      (other : List ℕ) (e : Entry)
      → same_name other name ≡ false
      → has_name name e ≡ true
      → has_name other e ≡ false
  distinct other e apart h =
      let same : name ≡ e.name = same_name-eq name e.name (ground arith) in
      rw (← same, apart) (ground arith)

  remove_after-Loses :
      (prev : Entry) (es : List Entry)
      → has_name name prev ≡ false
      → Loses (prev ∷ es) (remove_after prev name es)
  unfolding remove_after number_of
  remove_after-Loses prev [] h = (λ o. ground arith, λ other k. refl)
  remove_after-Loses prev (e ∷ es) h = elim (Bool-cases (has_name name e)) [
    | inl k ↦ rw k (λ o. ground (arith, o.1.0), λ other a. ground (arith, distinct other e a))
    | inr k ↦
        let ih = remove_after-Loses e es k in
        (λ o. rw k (ground (arith, ih.0 o.1)), λ other a. rw k (ground (arith, ih.1 other a)))
  ]

  pub remove-Loses : (es : List Entry) → Loses es (remove name es)
  unfolding remove number_of
  remove-Loses [] = (λ o. refl, λ other k. refl)
  remove-Loses (e ∷ es) = elim (Bool-cases (has_name name e)) [
    | inl k ↦ rw k (λ o. ground (arith, o.0), λ other a. ground (arith, distinct other e a))
    | inr k ↦
        let ih = remove_after-Loses e es k in (λ o. rw k (ih.0 o), λ other a. rw k (ih.1 other a))
  ]
