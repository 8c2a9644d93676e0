-- ===== src/Dir/Stepped.antt =====
-- What the iterator of a directory publishes, and that its search for a used entry ends.
use initramfstool.Base.{
  ℕ, zero, suc, ◌+◌, ◌/◌, ◌%◌, ◌^◌, ◌<◌, ◌≤◌, ◌≡◌, ◌≢◌, ◌⊎◌, inl, inr, refl, ap, ◌∙◌, arith, true,
  not, ◌||◌, List, [], ◌∷◌, ◌==◌, leb, Bool-cases, u32, Option, none, some,
}
use native.Mathlib.Nat.{mod-lt}
use initramfstool.Super.{Sblock, get_block_size}
use initramfstool.Inode.Fields.{get_size}
use initramfstool.Fs.Monad.{Result, ok, err}
use initramfstool.Dir.{get_entry_len, get_name_len, get_inode, iterator_set}
use initramfstool.Dir.Bytes.{Memory, get16}
use initramfstool.Dir.Blocks.{Store, Layer, block_get, block_set, outcome, then_do}
use initramfstool.Dir.Iterator.{
  Iter, Outcome, release, after_set, publish, arrive, loaded, load, seek, skip, stops, next_round,
  next_loop, next,
}

-- A published entry is aligned, it lies in its block, and its name lies in it, whatever bytes the block
-- has. A block has at least 8 bytes and fewer than 2 ^ 31.
pub iterator_set_bounds :
    (sb : Sblock) (m : Memory) (off : ℕ) {en : ℕ}
    → ((x : ℕ) → m x < 256)
    → 8 ≤ get_block_size sb
    → get_block_size sb < 2 ^ 31
    → iterator_set sb m off ≡ ok en
    → (en ≡ off % get_block_size sb)
      × (en % 4 ≡ 0)
      × (en + get_entry_len m en ≤ get_block_size sb)
      × (8 + get_name_len sb m en ≤ get_entry_len m en)
unfolding iterator_set get_entry_len get16
iterator_set_bounds sb m off bytes large small h =
    let at = off % get_block_size sb in
    let few : 0 < get_block_size sb = omega arith in
    ground (arith, mod-lt off few, bytes (at + 4), bytes (at + 4 + 1))

-- The length that `skip` reads.
iterator_set-len :
    (sb : Sblock) (m : Memory) (off : ℕ) {en : ℕ}
    → iterator_set sb m off ≡ ok en
    → 8 ≤ get_entry_len m en
unfolding iterator_set
iterator_set-len sb m off h = ground arith

outcome-parent : (os : List ℕ) (s : Store) → (outcome os s).1.parent ≡ s.parent
outcome-parent [] s = refl
outcome-parent (rc ∷ os) s = refl

then_do-parent :
    {A : Type 0} (s : Store) (p : Result (Unit {0}) × Store) (next : Store → Result A × Store)
    → p.1.parent ≡ s.parent
    → ((t : Store) → (next t).1.parent ≡ t.parent)
    → (then_do p next).1.parent ≡ s.parent
then_do-parent s (ok u, t) next h k = k t ∙ h
then_do-parent s (err e, t) next h k = h

block_get-parent : (s : Store) → (block_get s).1.parent ≡ s.parent
unfolding block_get
block_get-parent s =
    then_do-parent s (outcome s.outcomes s) _ (outcome-parent s.outcomes s) (λ t. refl)

block_set-parent : (s : Store) → (block_set s).1.parent ≡ s.parent
unfolding block_set
block_set-parent s =
    then_do-parent s (outcome s.outcomes s) _ (outcome-parent s.outcomes s) (λ t. refl)

module _ (sb : Sblock) (l : Layer) where
  -- On an entry that was published, before the end of the directory.
  pub record IsOn (it : Iter) (s : Store) (en : ℕ) : Type 0 where
    pub curr : it.curr ≡ some en
    pub len : 8 ≤ get_entry_len (s.blocks it.lb_id) en
    pub inside : it.curr_off < get_size sb s.parent

  -- A seek fails, or ends at its position: past the end, or on an entry.
  abbrev Sought : Store → ℕ → Outcome → Type 0
  Sought s pos (err e, it, s') = Unit
  Sought s pos (ok u, it, s') =
      (it.curr_off ≡ pos) × (s'.parent ≡ s.parent) × ((it.curr ≡ none) ⊎ ((en : ℕ) × IsOn it s' en))

  publish-Sought :
      (r : Result ℕ) (it : Iter) (s s0 : Store) (pos : ℕ)
      → ((en : ℕ) → r ≡ ok en → 8 ≤ get_entry_len (s.blocks it.lb_id) en)
      → it.curr_off ≡ pos
      → s.parent ≡ s0.parent
      → pos < get_size sb s0.parent
      → Sought s0 pos (publish r it s)
  unfolding publish
  publish-Sought (err e) it s s0 pos len at same below = tt
  publish-Sought (ok en) it s s0 pos len at same below =
      (at, same, inr (en, record { curr = refl; len = len en refl; inside = rw (same, at) below }))

  module _ (s0 : Store) (pos : ℕ) where
    arrive-Sought :
        (it : Iter) (s : Store)
        → s.parent ≡ s0.parent
        → pos < get_size sb s0.parent
        → Sought s0 pos (arrive sb l pos it s)
    unfolding arrive
    arrive-Sought it s same below =
        publish-Sought (iterator_set sb (s.blocks it.lb_id) pos) (record it { curr_off = pos }) s s0
          pos (λ en e. iterator_set-len sb (s.blocks it.lb_id) pos e) refl same below

    loaded-Sought :
        (blk : ℕ) (it : Iter) (p : Result (Unit {0}) × Store)
        → p.1.parent ≡ s0.parent
        → pos < get_size sb s0.parent
        → Sought s0 pos (loaded sb l pos blk it p)
    unfolding loaded
    loaded-Sought blk it (ok u, s) same below =
        arrive-Sought (record it { lb_id = blk }) s same below
    loaded-Sought blk it (err e, s) same below = tt

    load-Sought :
        (r : Result ℕ) (it : Iter) (s : Store)
        → s.parent ≡ s0.parent
        → pos < get_size sb s0.parent
        → Sought s0 pos (load sb l pos r it s)
    unfolding load
    load-Sought (err e) it s same below = tt
    load-Sought (ok blk) it s same below =
        loaded-Sought blk it (block_get s) (block_get-parent s ∙ same) below

    after_set-Sought :
        (it : Iter) (p : Result (Unit {0}) × Store) (go : Iter → Store → Outcome)
        → p.1.parent ≡ s0.parent
        → ((it1 : Iter) (s1 : Store)
            → it1.curr ≡ it.curr
            → s1.parent ≡ s0.parent
            → Sought s0 pos (go it1 s1))
        → Sought s0 pos (after_set it p go)
    after_set-Sought it (ok u, s) go same k = k (record it { lb_id = 0 }) s refl same
    after_set-Sought it (err e, s) go same k = tt

    release-Sought :
        (it : Iter) (go : Iter → Store → Outcome)
        → ((it1 : Iter) (s1 : Store)
            → it1.curr ≡ it.curr
            → s1.parent ≡ s0.parent
            → Sought s0 pos (go it1 s1))
        → Sought s0 pos (release it s0 go)
    unfolding release
    release-Sought it go k = elim (Bool-cases (it.lb_id == 0)) [
      | inl e ↦ rw e (k it s0 refl refl)
      | inr e ↦ rw e (after_set-Sought it (block_set s0) go (block_set-parent s0) k)
    ]

    seek-Sought : (it : Iter) → Sought s0 pos (seek sb l it s0 pos)
    unfolding seek
    seek-Sought it0 =
        let it : Iter = record it0 { curr = none } in
        let next_blk_idx = u32 (pos / get_block_size sb) in
        elim (Bool-cases (leb (get_size sb s0.parent) pos)) [
          | inl e ↦ rw e (
              release-Sought it (λ it1 s1. (ok tt, record it1 { curr_off = pos }, s1))
                (λ it1 s1 k same. (refl, same, inl k)))
          | inr e ↦
              let below : pos < get_size sb s0.parent = ground arith in
              rw e
                (elim (Bool-cases
                  (it0.lb_id == 0 || not (it0.curr_off / get_block_size sb == next_blk_idx))) [
                    | inl k ↦ rw k (
                        release-Sought it (λ it1 s1. load sb l pos (l.dblk_idx next_blk_idx) it1 s1)
                          (λ it1 s1 j same.
                            load-Sought (l.dblk_idx next_blk_idx) it1 s1 same below))
                    | inr k ↦ rw k (arrive-Sought it s0 refl below)
                  ])
        ]

  -- What the search for a used entry ends with: an error, the end, or such an entry further on.
  abbrev pub Ends : Iter → Outcome → Type 0
  Ends it0 (err e, it, s) = Unit
  Ends it0 (ok u, it, s) =
      (it.curr ≡ none)
      ⊎ ((en : ℕ) × IsOn it s en
          × (get_inode (s.blocks it.lb_id) en ≢ 0)
          × (it0.curr_off + 8 ≤ it.curr_off))

  Ends-later :
      (it0 it1 : Iter) (o : Outcome) → it0.curr_off ≤ it1.curr_off → Ends it1 o → Ends it0 o
  Ends-later it0 it1 (err e, it, s) le h = tt
  Ends-later it0 it1 (ok u, it, s) le (inl h) = inl h
  Ends-later it0 it1 (ok u, it, s) le (inr (en, on, used, far)) = inr (en, on, used, omega arith)

  stops-on :
      (it : Iter) (s : Store) (en : ℕ)
      → it.curr ≡ some en
      → stops sb l it s it.curr ≡ not (get_inode (s.blocks it.lb_id) en == 0)
  unfolding stops
  stops-on it s en e = ap (stops sb l it s) e

  ended : (it : Iter) (s : Store) → it.curr ≡ none → stops sb l it s it.curr ≡ true
  unfolding stops
  ended it s e = ap (stops sb l it s) e

  round :
      (again : Iter → Store → Option Outcome) (it0 : Iter) (s0 : Store) (pos : ℕ) (o : Outcome)
      → it0.curr_off + 8 ≤ pos
      → Sought s0 pos o
      → ((it : Iter) (s : Store) (en : ℕ)
          → IsOn it s en
          → it.curr_off ≡ pos
          → s.parent ≡ s0.parent
          → (p : Outcome) × (again it s ≡ some p) × Ends it p)
      → (p : Outcome) × (next_round sb l again o ≡ some p) × Ends it0 p
  unfolding next_round
  round again it0 s0 pos (err e, it, s) far h go = ((err e, it, s), refl, tt)
  round again it0 s0 pos (ok u, it, s) far (at, same, inl h) go =
      ((ok u, it, s), rw (ended it s h) refl, inl h)
  round again it0 s0 pos (ok u, it, s) far (at, same, inr (en, on)) go =
      elim (Bool-cases (get_inode (s.blocks it.lb_id) en == 0)) [
        | inl unused ↦
            let (p, e, ends) = go it s en on at same in
            (p, rw (stops-on it s en on.curr, unused) e, Ends-later it0 it p (omega arith) ends)
        | inr used ↦ (
          (ok u, it, s),
          rw (stops-on it s en on.curr, used) refl,
          inr (en, on, (λ e. ground arith), omega arith),
        )
      ]

  loop :
      (fuel : ℕ) (it : Iter) (s : Store) (en : ℕ)
      → IsOn it s en
      → get_size sb s.parent < it.curr_off + fuel
      → (p : Outcome) × (next_loop sb l fuel it s ≡ some p) × Ends it p
  unfolding next_loop skip
  loop zero it s en on h = absurd (let i = on.inside in omega arith)
  loop (suc fuel) it s en on h =
      let len = on.len in
      let pos = it.curr_off + skip sb l it s it.curr in
      let far : it.curr_off + 8 ≤ pos = rw on.curr (omega arith) in
      round (λ it1 s1. next_loop sb l fuel it1 s1) it s pos (seek sb l it s pos) far
        (seek-Sought s pos it)
        (λ it1 s1 en1 on1 at same. loop fuel it1 s1 en1 on1 (rw (same, at) (omega arith)))

  -- From an entry before the end of the directory, the search for the next used entry ends, whatever
  -- the blocks hold and whichever calls fail: with an error, at the end, or on a used entry at least
  -- 8 bytes further on.
  pub next-Ends :
      (it : Iter) (s : Store) {en : ℕ}
      → IsOn it s en
      → (p : Outcome) × (next sb l it s ≡ some p) × Ends it p
  unfolding next
  next-Ends it s {en} on = loop (suc (get_size sb s.parent)) it s en on (omega arith)
