-- ===== src/Bcache/Returned.antt =====
-- Giving a reference back: `ext4_bcache_free`.
use initramfstool.Base.{
  ℕ, ◌<◌, ◌≡◌, refl, sym, ◌∙◌, arith, Bool, true, false, not, ◌&&◌, ◌||◌, ◌==◌, ==-self,
  if◌then◌else◌, Bool-cases, inl, inr, ◌⊎◌,
}
use mathlib.Core.Path.{subst}
use initramfstool.Super.{sub32}
use initramfstool.Bdev.{Bdev, eok, first_outcome}
use initramfstool.Bcache.{
  has, store, insert_dirty_node, flush_buf, drop_buf, put_dirty, put_last, free,
}
use initramfstool.Bcache.Flushed.{
  is_pending, succeeds, flush_buf-lba_root, flush_buf-tmp, flush_buf_clean, flush_buf_result,
}
use initramfstool.Bcache.Dropped.{in_list, drop_buf-IsStep, view-drop_buf, clean_view}
use initramfstool.Bcache.Valid.{
  IsValid, IsStep, IsStep-IsValid, IsStep-trans, unchanged-IsStep, view,
}
use initramfstool.Bcache.Put.{
  IsSteady, IsSteady-trans, flush_buf-IsSteady, flagged-IsSteady, queued-IsSteady, decremented,
  released, more-IsStep, released-IsStep, view-decremented, view-released, idle_list,
}

-- The write is put off.
abbrev pub delays : Bdev → ℕ → Bool
delays s k = not (s.cache_write_back == 0) && (not (s.buf k).flush && not (s.buf k).tmp)

-- A dirty buffer that nobody refers to.
module _ (k : ℕ) (s : Bdev) (v : IsValid s) (member : has s.lba_root k ≡ true) where
  delayed :
      ((s.buf k).dirty && (s.buf k).refctr == 0) ≡ true
      → (s.buf k).on_dirty_list ≡ false
      → delays s k ≡ true
      → IsSteady k s (put_dirty s k)
  unfolding put_dirty insert_dirty_node
  delayed idle off e = rw (e, off) (queued-IsSteady k s v member idle)

  pub put_dirty-at_once :
      delays s k ≡ false
      → put_dirty s k
        ≡ store (flush_buf s k).1 k (record ((flush_buf s k).1.buf k) { flush = false })
  unfolding put_dirty
  put_dirty-at_once e = rw e refl

  flushed-IsSteady :
      IsSteady k s (store (flush_buf s k).1 k (record ((flush_buf s k).1.buf k) { flush = false }))
  flushed-IsSteady =
      let f = flush_buf-IsSteady k s v member in
      IsSteady-trans f (
        flagged-IsSteady k (flush_buf s k).1 (IsStep-IsValid v f.step)
          (rw (flush_buf-lba_root k s v member) member) false ((flush_buf s k).1.buf k).tmp)

  put_dirty-IsSteady :
      ((s.buf k).dirty && (s.buf k).refctr == 0) ≡ true
      → (s.buf k).on_dirty_list ≡ false
      → IsSteady k s (put_dirty s k)
  put_dirty-IsSteady idle off = elim (Bool-cases (delays s k)) [
    | inl e ↦ delayed idle off e
    | inr e ↦ rw (put_dirty-at_once e) flushed-IsSteady
  ]

  -- A temporary buffer is written at once; if that succeeds it is clean.
  tmp_written : (s.buf k).tmp ≡ true → succeeds s ≡ true → is_pending (put_dirty s k) k ≡ false
  tmp_written tmp e =
      rw (put_dirty-at_once (ground arith), ==-self k)
        (flush_buf_clean k s v member (flush_buf_result k s v member e))

  delayed-tmp : delays s k ≡ true → ((put_dirty s k).buf k).tmp ≡ (s.buf k).tmp
  unfolding put_dirty insert_dirty_node
  delayed-tmp e = elim (Bool-cases (s.buf k).on_dirty_list) [
    | inl on ↦ rw (e, on) refl
    | inr off ↦ rw (e, off, ==-self k) refl
  ]

  pub put_dirty-tmp : ((put_dirty s k).buf k).tmp ≡ (s.buf k).tmp
  put_dirty-tmp = elim (Bool-cases (delays s k)) [
    | inl e ↦ delayed-tmp e
    | inr e ↦ rw (put_dirty-at_once e, ==-self k) (flush_buf-tmp k s v member)
  ]

-- What the code does before it looks whether the buffer is to be dropped.
abbrev pub handled : Bdev → ℕ → Bdev
handled s k = if (s.buf k).dirty && (s.buf k).uptodate then put_dirty s k else s

abbrev pub is_over : Bdev → ℕ → Bool
is_over s k = not (s.buf k).uptodate || (s.buf k).tmp

module _ (k : ℕ) (s : Bdev) (v : IsValid s) (member : has s.lba_root k ≡ true) where
  handled-IsSteady :
      (s.buf k).refctr == 0 ≡ true → (s.buf k).on_dirty_list ≡ false → IsSteady k s (handled s k)
  handled-IsSteady idle unlisted = elim (Bool-cases ((s.buf k).dirty && (s.buf k).uptodate)) [
    | inl on ↦ rw on (put_dirty-IsSteady k s v member (ground arith) unlisted)
    | inr off ↦ rw off (record { step = unchanged-IsStep k v; members = refl; same = refl })
  ]

  pub handled_on : ((s.buf k).dirty && (s.buf k).uptodate) ≡ true → handled s k ≡ put_dirty s k
  handled_on on = rw on refl

  -- A buffer that is dropped is clean, unless it is temporary and the write has failed.
  over_clean :
      (((s.buf k).dirty && (s.buf k).uptodate) ≡ true
        → (first_outcome s.outcomes ≡ eok) ⊎ ((s.buf k).tmp ≡ false))
      → is_over (handled s k) k ≡ true
      → ((handled s k).buf k).dirty && ((handled s k).buf k).uptodate ≡ false
  over_clean kept over = elim (Bool-cases ((s.buf k).dirty && (s.buf k).uptodate)) [
    | inr off ↦ rw off off
    | inl on ↦
        rw on (written_off on (subst (λ (t : Bdev). is_over t k ≡ true) (handled_on on) over))
  ]
    where
      written_off :
          ((s.buf k).dirty && (s.buf k).uptodate) ≡ true
          → is_over (put_dirty s k) k ≡ true
          → ((put_dirty s k).buf k).dirty && ((put_dirty s k).buf k).uptodate ≡ false
      written_off on over = elim (kept on) [
        | inr off ↦ (let t = put_dirty-tmp k s v member in ground arith)
        | inl e ↦ elim (Bool-cases (s.buf k).tmp) [
          | inl tmp ↦ tmp_written k s v member tmp (ground arith)
          | inr off ↦ (let t = put_dirty-tmp k s v member in ground arith)
        ]
      ]

module _ (k : ℕ) (s : Bdev) (v : IsValid s) (member : has s.lba_root k ≡ true)
    (held : 0 < (s.buf k).refctr) where
  not_listed : (s.buf k).on_dirty_list ≡ false
  not_listed = sym (in_list k s v member) ∙ idle_list k s v member held

  free_more : (sub32 (s.buf k).refctr 1 == 0) ≡ false → free s k ≡ decremented s k
  unfolding free
  free_more more = rw more refl

  abbrev pub rest : Bdev
  rest = handled (released s k) k

  pub free_last :
      (sub32 (s.buf k).refctr 1 == 0) ≡ true
      → free s k ≡ (if is_over rest k then drop_buf rest k else rest)
  unfolding free put_last
  free_last last = rw last refl

  pub rest-IsSteady : (sub32 (s.buf k).refctr 1 == 0) ≡ true → IsSteady k s rest
  rest-IsSteady last =
      let step = released-IsStep k s v member held last in
      IsSteady-trans
        (record { step = step; members = refl; same = view-released k s v member held })
        (handled-IsSteady k (released s k) (IsStep-IsValid v step) member (rw (==-self k) last)
          (rw (==-self k) not_listed))

  pub rest_member : (sub32 (s.buf k).refctr 1 == 0) ≡ true → has rest.lba_root k ≡ true
  rest_member last = rw (IsSteady.members (rest-IsSteady last)) member

  -- Giving a reference back keeps the cache well-formed, whatever the device answers.
  pub free-IsStep : IsStep k s (free s k)
  free-IsStep = elim (Bool-cases (sub32 (s.buf k).refctr 1 == 0)) [
    | inr more ↦ rw (free_more more) (more-IsStep k s v member held more)
    | inl last ↦
        let steady = rest-IsSteady last in
        elim (Bool-cases (is_over rest k)) [
          | inr stays ↦ rw (free_last last, stays) steady.step
          | inl over ↦
              rw (free_last last, over)
                (IsStep-trans steady.step
                  (drop_buf-IsStep k rest (IsStep-IsValid v steady.step) (rest_member last)))
        ]
  ]

  -- The block is seen as before, unless the buffer is temporary and the write fails.
  pub view-free :
      (((s.buf k).dirty && (s.buf k).uptodate) ≡ true
        → (first_outcome s.outcomes ≡ eok) ⊎ ((s.buf k).tmp ≡ false))
      → view (free s k) k ≡ view s k
  view-free kept = elim (Bool-cases (sub32 (s.buf k).refctr 1 == 0)) [
    | inr more ↦ rw (free_more more) (view-decremented k s v member held)
    | inl last ↦
        let steady = rest-IsSteady last in
        let w = IsStep-IsValid v steady.step in
        elim (Bool-cases (is_over rest k)) [
          | inr stays ↦ rw (free_last last, stays) steady.same
          | inl over ↦
              rw (free_last last, over)
                (view-drop_buf k rest w (rest_member last)
                  ∙ sym (
                      clean_view k rest w (rest_member last) (
                        over_clean k (released s k)
                          (IsStep-IsValid v (released-IsStep k s v member held last)) member
                          (rw (==-self k) kept) over))
                  ∙ steady.same)
        ]
  ]
