-- ===== src/Dir/Published.antt =====
-- What the iterator of a directory publishes: an entry that lies in the block that it holds.
use initramfstool.Base.{
  ℕ, zero, suc, ◌+◌, ◌/◌, ◌%◌, ◌^◌, ◌<◌, ◌≤◌, ◌≡◌, refl, sym, ap, ◌∙◌, inl, inr, arith, Bool, not,
  ◌||◌, ◌==◌, leb, if◌then◌else◌, u32, List, [], ◌∷◌, Option, none, some, Bool-cases,
}
use mathlib.Core.Path.{subst}
use initramfstool.Super.{Sblock, get_block_size}
use initramfstool.Inode.Fields.{get_size}
use initramfstool.Fs.Monad.{Result, ok, err}
use initramfstool.Dir.{get_entry_len, get_name_len, iterator_set}
use initramfstool.Dir.Blocks.{Store, Layer, outcome, then_do, block_get, block_set}
use initramfstool.Dir.Bytes.{Memory}
use initramfstool.Dir.Iterator.{
  Iter, Outcome, after_set, release, publish, arrive, loaded, load, seek, stops, next_round,
  next_loop, next,
}
use initramfstool.Dir.Stepped.{iterator_set_bounds}

-- The entry `en` is the one at position `pos`; it is aligned, it lies in the block, and its name in it.
pub record IsInBlock (sb : Sblock) (m : Memory) (pos en : ℕ) : Type 0 where
  pub at : en ≡ pos % get_block_size sb
  pub aligned : en % 4 ≡ 0
  pub entry_fits : en + get_entry_len m en ≤ get_block_size sb
  pub name_fits : 8 + get_name_len sb m en ≤ get_entry_len m en

outcome-blocks : (os : List ℕ) (s : Store) → (outcome os s).1.blocks ≡ s.blocks
outcome-blocks [] s = refl
outcome-blocks (rc ∷ os) s = refl

then_do-blocks :
    {A : Type 0} (s : Store) (p : Result (Unit {0}) × Store) (go : Store → Result A × Store)
    → p.1.blocks ≡ s.blocks
    → ((t : Store) → (go t).1.blocks ≡ t.blocks)
    → (then_do p go).1.blocks ≡ s.blocks
then_do-blocks s (ok u, t) go h k = k t ∙ h
then_do-blocks s (err e, t) go h k = h

block_get-blocks : (s : Store) → (block_get s).1.blocks ≡ s.blocks
unfolding block_get
block_get-blocks s =
    then_do-blocks s (outcome s.outcomes s) _ (outcome-blocks s.outcomes s) (λ t. refl)

block_set-blocks : (s : Store) → (block_set s).1.blocks ≡ s.blocks
unfolding block_set
block_set-blocks s =
    then_do-blocks s (outcome s.outcomes s) _ (outcome-blocks s.outcomes s) (λ t. refl)

abbrev or_else : Outcome → Option Outcome → Outcome
or_else o none = o
or_else o (some p) = p

module _ (sb : Sblock) (l : Layer) (blocks : ℕ → Memory) (bytes : (j x : ℕ) → blocks j x < 256)
    (large : 8 ≤ get_block_size sb) (small : get_block_size sb < 2 ^ 31) where
  -- The blocks stay, and the iterator has no entry or one in its block, whatever the return code.
  record IsSafe (o : Outcome) : Type 0 where
    kept : o.2.blocks ≡ blocks
    curr : (en : ℕ) → o.1.curr ≡ some en → IsInBlock sb (blocks o.1.lb_id) o.1.curr_off en

  same_outcome : (o p : Outcome) → some o ≡ some p → IsSafe o → IsSafe p
  same_outcome o p h safe = subst IsSafe (ap (or_else o) h) safe

  published :
      (o : Outcome)
      → IsSafe o
      → (en : ℕ) → o.1.curr ≡ some en
      → IsInBlock sb (o.2.blocks o.1.lb_id) o.1.curr_off en
  published o safe en e =
      subst (λ (m : ℕ → Memory). IsInBlock sb (m o.1.lb_id) o.1.curr_off en) (sym safe.kept)
        (safe.curr en e)

  idle-IsSafe :
      (r : Result (Unit {0})) (it : Iter) (s : Store)
      → s.blocks ≡ blocks
      → it.curr ≡ none
      → IsSafe (r, it, s)
  idle-IsSafe r it s same idle = record {
    kept = same;
    curr = λ en e. absurd (let n = sym idle ∙ e in ground arith);
  }

  publish-IsSafe :
      (r : Result ℕ) (it : Iter) (s : Store)
      → ((en : ℕ) → r ≡ ok en → IsInBlock sb (blocks it.lb_id) it.curr_off en)
      → s.blocks ≡ blocks
      → it.curr ≡ none
      → IsSafe (publish r it s)
  unfolding publish
  publish-IsSafe (err e) it s lies same idle = idle-IsSafe (err e) it s same idle
  publish-IsSafe (ok en) it s lies same idle = record {
    kept = same;
    curr = λ en' e. lies en' (ap ok (ground arith));
  }

  module _ (pos : ℕ) where
    arrive-IsSafe :
        (it : Iter) (s : Store) → s.blocks ≡ blocks → it.curr ≡ none → IsSafe (arrive sb l pos it s)
    unfolding arrive
    arrive-IsSafe it s same idle =
        publish-IsSafe (iterator_set sb (s.blocks it.lb_id) pos) (record it { curr_off = pos }) s
          (λ en e.
            let set = ap (λ (m : ℕ → Memory). iterator_set sb (m it.lb_id) pos) (sym same) ∙ e in
            let (at, aligned, entry, name) =
              iterator_set_bounds sb (blocks it.lb_id) pos (bytes it.lb_id) large small set in
            record { at = at; aligned = aligned; entry_fits = entry; name_fits = name })
          same idle

    loaded-IsSafe :
        (blk : ℕ) (it : Iter) (p : Result (Unit {0}) × Store)
        → p.1.blocks ≡ blocks
        → it.curr ≡ none
        → IsSafe (loaded sb l pos blk it p)
    unfolding loaded
    loaded-IsSafe blk it (ok u, s) same idle = arrive-IsSafe (record it { lb_id = blk }) s same idle
    loaded-IsSafe blk it (err e, s) same idle =
        idle-IsSafe (err e) (record it { lb_id = 0 }) s same idle

    load-IsSafe :
        (r : Result ℕ) (it : Iter) (s : Store)
        → s.blocks ≡ blocks
        → it.curr ≡ none
        → IsSafe (load sb l pos r it s)
    unfolding load
    load-IsSafe (err e) it s same idle = idle-IsSafe (err e) it s same idle
    load-IsSafe (ok blk) it s same idle =
        loaded-IsSafe blk it (block_get s) (block_get-blocks s ∙ same) idle

    after_set-IsSafe :
        (it : Iter) (p : Result (Unit {0}) × Store) (go : Iter → Store → Outcome)
        → p.1.blocks ≡ blocks
        → it.curr ≡ none
        → ((it1 : Iter) (s1 : Store) → s1.blocks ≡ blocks → it1.curr ≡ none → IsSafe (go it1 s1))
        → IsSafe (after_set it p go)
    after_set-IsSafe it (ok u, s) go same idle k = k (record it { lb_id = 0 }) s same idle
    after_set-IsSafe it (err e, s) go same idle k =
        idle-IsSafe (err e) (record it { lb_id = 0 }) s same idle

    release-IsSafe :
        (it : Iter) (s : Store) (go : Iter → Store → Outcome)
        → s.blocks ≡ blocks
        → it.curr ≡ none
        → ((it1 : Iter) (s1 : Store) → s1.blocks ≡ blocks → it1.curr ≡ none → IsSafe (go it1 s1))
        → IsSafe (release it s go)
    unfolding release
    release-IsSafe it s go same idle k = elim (Bool-cases (it.lb_id == 0)) [
      | inl e ↦ rw e (k it s same idle)
      | inr e ↦ rw e (after_set-IsSafe it (block_set s) go (block_set-blocks s ∙ same) idle k)
    ]

    seek-IsSafe : (it : Iter) (s : Store) → s.blocks ≡ blocks → IsSafe (seek sb l it s pos)
    unfolding seek
    seek-IsSafe it0 s same =
        let it : Iter = record it0 { curr = none } in
        let idx = u32 (pos / get_block_size sb) in
        elim (Bool-cases (leb (get_size sb s.parent) pos)) [
          | inl e ↦ rw e (
              release-IsSafe it s (λ it1 s1. (ok tt, record it1 { curr_off = pos }, s1)) same refl
                (λ it1 s1 k idle. idle-IsSafe (ok tt) (record it1 { curr_off = pos }) s1 k idle))
          | inr e ↦
              rw e
                (elim (Bool-cases
                  (it0.lb_id == 0 || not (it0.curr_off / get_block_size sb == idx))) [
                    | inl k ↦ rw k (
                        release-IsSafe it s (λ it1 s1. load sb l pos (l.dblk_idx idx) it1 s1) same
                          refl (λ it1 s1 k idle. load-IsSafe (l.dblk_idx idx) it1 s1 k idle))
                    | inr k ↦ rw k (arrive-IsSafe it s same refl)
                  ])
        ]

  round-IsSafe :
      (again : Iter → Store → Option Outcome) (o p : Outcome)
      → IsSafe o
      → ((it : Iter) (s : Store) → s.blocks ≡ blocks → again it s ≡ some p → IsSafe p)
      → next_round sb l again o ≡ some p
      → IsSafe p
  unfolding next_round
  round-IsSafe again (err e, it, s) p safe go h = same_outcome (err e, it, s) p h safe
  round-IsSafe again (ok u, it, s) p safe go h = elim (Bool-cases (stops sb l it s it.curr)) [
    | inl e ↦ same_outcome (ok u, it, s) p (subst (stopped it s) e h) safe
    | inr e ↦ go it s safe.kept (subst (stopped it s) e h)
  ]
    where
      stopped : Iter → Store → Bool → Type 0
      stopped it s b = (if b then some (ok u, it, s) else again it s) ≡ some p

  loop-IsSafe :
      (fuel : ℕ) (it : Iter) (s : Store) (p : Outcome)
      → s.blocks ≡ blocks
      → next_loop sb l fuel it s ≡ some p
      → IsSafe p
  unfolding next_loop
  loop-IsSafe zero it s p same h = absurd (ground arith)
  loop-IsSafe (suc fuel) it s p same h =
      round-IsSafe (λ it1 s1. next_loop sb l fuel it1 s1) _ p (seek-IsSafe _ it s same)
        (λ it1 s1 k g. loop-IsSafe fuel it1 s1 p k g) h

-- Whether the iterator has no entry or one that lies in the block that is held.
pub Lies : Sblock → Memory → ℕ → Option ℕ → Type 0
Lies sb m pos none = Unit
Lies sb m pos (some en) = IsInBlock sb m pos en

-- A loop that is out of fuel publishes nothing.
pub LiesAfter : Sblock → Option Outcome → Type 0
LiesAfter sb none = Unit
LiesAfter sb (some (r, it, s)) = Lies sb (s.blocks it.lb_id) it.curr_off it.curr

lies :
    (sb : Sblock) (m : Memory) (pos : ℕ) (curr : Option ℕ)
    → ((en : ℕ) → curr ≡ some en → IsInBlock sb m pos en)
    → Lies sb m pos curr
unfolding Lies
lies sb m pos none h = tt
lies sb m pos (some en) h = h en refl

lies_after :
    (sb : Sblock) (o : Option Outcome)
    → ((p : Outcome)
        → o ≡ some p
        → (en : ℕ) → p.1.curr ≡ some en
        → IsInBlock sb (p.2.blocks p.1.lb_id) p.1.curr_off en)
    → LiesAfter sb o
unfolding LiesAfter
lies_after sb none h = tt
lies_after sb (some (r, it, s)) h =
    lies sb (s.blocks it.lb_id) it.curr_off it.curr (h (r, it, s) refl)

-- An entry that the iterator has after a seek or a step is the one at its position: it is aligned, it
-- lies in the block that is held, and its name lies in it. This holds from every state of the iterator,
-- whatever bytes the blocks have, whichever calls fail and whatever is returned; a block has at least 8
-- bytes and fewer than 2 ^ 31.
pub next-LiesAfter :
    (sb : Sblock) (l : Layer) (it : Iter) (s : Store) (pos : ℕ)
    → ((j x : ℕ) → s.blocks j x < 256)
    → 8 ≤ get_block_size sb
    → get_block_size sb < 2 ^ 31
    → LiesAfter sb (some (seek sb l it s pos)) × LiesAfter sb (next sb l it s)
unfolding next
next-LiesAfter sb l it s pos bytes large small = (
  lies_after sb _ (λ p e.
      let safe = seek-IsSafe sb l s.blocks bytes large small pos it s refl in
      published sb l s.blocks bytes large small p
        (same_outcome sb l s.blocks bytes large small _ p e safe)),
  lies_after sb _ (λ p e.
      published sb l s.blocks bytes large small p
        (loop-IsSafe sb l s.blocks bytes large small _ it s p refl e)),
)
