-- ===== src/Dir/Merged.antt =====
-- The entry that `ext4_dir_remove_entry` frees goes to the one before it.
use initramfstool.Base.{
  ℕ, zero, suc, ◌+◌, ◌^◌, ◌<◌, ◌≤◌, ◌≡◌, ◌⊎◌, inl, inr, refl, ap, sym, ◌∙◌, arith, true, false,
  List, [], ◌∷◌, if◌then◌else◌, length, ltb, Bool-cases, u16, u32,
}
use mathlib.Core.Path.{subst}
use initramfstool.Super.{Sblock}
use initramfstool.Fs.Monad.{ok}
use initramfstool.Dir.{
  get_inode, set_inode, get_entry_len, set_entry_len, get_name_len, get_inode_type, predecessor,
}
use initramfstool.Dir.Bytes.{
  Memory, SameOutside, outside-wider, put32, put16-outside, put32-outside, get32-put32, get16-same,
  slice-same,
}
use initramfstool.Dir.Entries.{Entry, IsEntry, IsAt, IsAt-same, IsChain, IsChain-same, chain-le}
use initramfstool.Dir.Found.{has_name, lookup}
use initramfstool.Dir.Written.{set_entry_len-IsAt}

-- The first used entry with the name is taken out, and the entry before it gets its bytes.
unfoldable pub remove_after : Entry → List ℕ → List Entry → List Entry
remove_after prev name [] = prev ∷ []
remove_after prev name (e ∷ es) =
    let rest = remove_after e name es in
    if has_name name e
    then record prev { entry_len = prev.entry_len + e.entry_len } ∷ es
    else prev ∷ rest

-- The first entry of a block has none before it, and is marked as unused.
unfoldable pub remove : List ℕ → List Entry → List Entry
remove name [] = []
remove name (e ∷ es) =
    if has_name name e then record e { inode = 0 } ∷ es else remove_after e name es

pub lookup-le :
    (sb : Sblock) (m : Memory) (p stop pos : ℕ) (name : List ℕ) (es : List Entry)
    → IsChain sb m p stop es
    → lookup p name es ≡ ok pos
    → (p ≤ pos) × (pos + 8 ≤ stop)
unfolding lookup
lookup-le sb m p stop pos name [] c h = cc
lookup-le sb m p stop pos name (e ∷ es) c h =
    let f = c.1.fits in
    ground (
      arith,
      chain-le sb m (p + e.entry_len) stop es c.2,
      lookup-le sb m (p + e.entry_len) stop pos name es c.2,
    )

pub set_inode-IsAt :
    (sb : Sblock) (m : Memory) (p inode : ℕ) (e : Entry)
    → inode < 2 ^ 32
    → IsAt sb m p e
    → IsAt sb (set_inode m p inode) p (record e { inode = inode })
unfolding set_inode get_inode get_entry_len get_name_len get_inode_type
set_inode-IsAt sb m p inode e h a =
    let out = put32-outside m p inode in
    record {
      inode = get32-put32 m p inode h;
      entry_len =
          get16-same m (put32 m p inode) (p + 4) (λ x i j. out x (inr (omega arith))) ∙ a.entry_len;
      name_len = rw (out (p + 6) (inr (omega arith)), out (p + 7) (inr (omega arith))) a.name_len;
      type = rw (out (p + 7) (inr (omega arith))) a.type;
      name =
          slice-same m (put32 m p inode) (p + 8) (length e.name)
            (λ x i j. out x (inr (omega arith)))
          ∙ a.name;
    }

set_entry_len-outside :
    (m : Memory) (p len : ℕ) → SameOutside m (set_entry_len m p len) (p + 4) (p + 6)
unfolding set_entry_len
set_entry_len-outside m p len x (inl h) = put16-outside m (p + 4) len x (inl h)
set_entry_len-outside m p len x (inr h) = put16-outside m (p + 4) len x (inr (omega arith))

-- `f` is the block with the number of the entry at `pos` cleared.
module _ (sb : Sblock) (m f : Memory) (stop pos : ℕ) (name : List ℕ)
    (cleared : SameOutside m f pos (pos + 4)) (small : stop < 2 ^ 16) where
  abbrev merged : ℕ → Memory
  merged prev = set_entry_len f prev (u16 (get_entry_len f prev + get_entry_len f pos))

  -- The bytes from `p` on hold the entries `es`, and those before `p` are as they were.
  abbrev pub Becomes : ℕ → List Entry → Memory → Type 0
  Becomes p es m' = IsChain sb m' p stop es × SameOutside m m' p stop

  -- The number does not lie on the lengths.
  entry_len-cleared :
      (p : ℕ) (e : Entry)
      → (p + 6 ≤ pos) ⊎ (p ≡ pos)
      → IsAt sb m p e
      → get_entry_len f p ≡ e.entry_len
  unfolding get_entry_len
  entry_len-cleared p e (inl h) a =
      get16-same m f (p + 4) (λ x i j. cleared x (inl (omega arith))) ∙ a.entry_len
  entry_len-cleared p e (inr h) a =
      get16-same m f (p + 4) (λ x i j. cleared x (inr (omega arith))) ∙ a.entry_len

  merge-here :
      (p : ℕ) (prev e : Entry) (es : List Entry)
      → IsAt sb m p prev
      → IsEntry prev
      → IsAt sb m pos e
      → IsEntry e
      → IsChain sb m (pos + e.entry_len) stop es
      → p + prev.entry_len ≡ pos
      → Becomes p (record prev { entry_len = prev.entry_len + e.entry_len } ∷ es) (merged p)
  merge-here p prev e es a v a2 v2 rest at =
      let end = chain-le sb m (pos + e.entry_len) stop es rest in
      let fits = v.fits in
      let fits2 = v2.fits in
      let aligned = v.aligned in
      let aligned2 = v2.aligned in
      let sum = prev.entry_len + e.entry_len in
      let len : u16 (get_entry_len f p + get_entry_len f pos) ≡ sum =
        rw (entry_len-cleared p prev (inl (omega arith)) a, entry_len-cleared pos e (inr refl) a2)
          (omega arith) in
      let next : p + sum ≡ pos + e.entry_len = omega arith in
      let m' = set_entry_len f p sum in
      let out = set_entry_len-outside f p sum in
      subst (Becomes p (record prev { entry_len = sum } ∷ es))
        (sym (ap (λ (t : ℕ). set_entry_len f p t) len))
        (
          (
            set_entry_len-IsAt sb f p sum prev (omega arith)
                (IsAt-same sb m f p prev (λ x i j. cleared x (inl (omega arith))) a),
            record { fits = omega arith; aligned = omega arith; short = v.short },
            rw next (
                IsChain-same sb m m' (pos + e.entry_len) stop es
                  (λ x i j. out x (inr (omega arith)) ∙ cleared x (inr (omega arith))) rest),
          ),
          λ x i.
              outside-wider (p + 4) (p + 6) p stop (omega arith) (omega arith) out x i
              ∙ outside-wider pos (pos + 4) p stop (omega arith) (omega arith) cleared x i,
        )

  parts :
      (p : ℕ) (prev e : Entry) (es : List Entry)
      → IsChain sb m p stop (prev ∷ e ∷ es)
      → IsAt sb m p prev
        × IsEntry prev
        × IsAt sb m (p + prev.entry_len) e
        × IsEntry e
        × IsChain sb m (p + prev.entry_len + e.entry_len) stop es
  parts p prev e es c = (c.0, c.1, c.2.0, c.2.1, c.2.2)

  pub walk :
      (fuel p : ℕ) (prev : Entry) (es : List Entry)
      → IsChain sb m p stop (prev ∷ es)
      → lookup (p + prev.entry_len) name es ≡ ok pos
      → pos ≤ p + fuel
      → Becomes p (remove_after prev name es) (merged (predecessor fuel f pos p))
  unfolding lookup remove_after predecessor
  walk fuel p prev [] c found h = cc
  walk zero p prev (e ∷ es) c found h =
      absurd (omega (arith, lookup-le sb m (p + prev.entry_len) stop pos name (e ∷ es) c.2 found))
  walk (suc fuel) p prev (e ∷ es) c found h =
      let (a, v, a2, v2, rest) = parts p prev e es c in
      let fits = v.fits in
      let fits2 = v2.fits in
      let below = lookup-le sb m (p + prev.entry_len) stop pos name (e ∷ es) c.2 found in
      let len = entry_len-cleared p prev (inl (omega arith)) a in
      elim (Bool-cases (has_name name e)) [
        | inl k ↦
            let at : p + prev.entry_len ≡ pos = ground arith in
            let last : ltb (p + get_entry_len f p) pos ≡ false = ground arith in
            let here : predecessor (suc fuel) f pos p ≡ p = rw last refl in
            rw k (
              subst
                (λ (q : ℕ).
                  Becomes p (record prev { entry_len = prev.entry_len + e.entry_len } ∷ es)
                    (merged q))
                (sym here)
                (merge-here p prev e es a v (subst (λ (x : ℕ). IsAt sb m x e) at a2) v2
                  (subst (λ (x : ℕ). IsChain sb m (x + e.entry_len) stop es) at rest) at))
        | inr k ↦
            let found' : lookup (p + prev.entry_len + e.entry_len) name es ≡ ok pos =
              ground arith in
            let above =
              lookup-le sb m (p + prev.entry_len + e.entry_len) stop pos name es rest found' in
            let more : ltb (p + get_entry_len f p) pos ≡ true = ground arith in
            let next : u32 (p + get_entry_len f p) ≡ p + prev.entry_len = omega arith in
            let ih = walk fuel (p + prev.entry_len) e es c.2 found' (omega arith) in
            let there : predecessor (suc fuel) f pos p
                ≡ predecessor fuel f pos (p + prev.entry_len) =
              rw (more, next) refl in
            rw k (
              subst (λ (q : ℕ). Becomes p (prev ∷ remove_after e name es) (merged q)) (sym there)
                (
                  (IsAt-same sb m _ p prev (λ x i j. ih.1 x (inl (omega arith))) a, v, ih.0),
                  outside-wider (p + prev.entry_len) stop p stop (omega arith) (omega arith) ih.1,
                ))
      ]
