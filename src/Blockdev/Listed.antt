-- ===== src/Blockdev/Listed.antt =====
-- Writing everything that was put off: `ext4_block_cache_flush` and `ext4_block_cache_write_back`.
use initramfstool.Base.{
  ℕ, zero, suc, ◌+◌, ◌-◌, ◌<◌, ◌≤◌, ◌≡◌, refl, sym, ◌∙◌, arith, Bool, true, false, List, [], ◌∷◌,
  ◌==◌, ==-self, if◌then◌else◌, Bool-cases, inl, inr, ◌⊎◌, length, u32,
}
use mathlib.Core.Path.{subst}
use initramfstool.Bdev.{Bdev, eok, blocks_set_direct, bdif_bwrite}
use initramfstool.Bdev.Direct.{block_at}
use initramfstool.Bcache.{has, flush_buf}
use initramfstool.Bcache.Valid.{IsValid, IsStep, view, seen}
use initramfstool.Bcache.Frame.{IsFrame}
use initramfstool.Bcache.Flushed.{is_pending, flush_buf-IsStep, flush_buf-dirty_list, ways, listed}
use initramfstool.Bcache.Dropped.{clean_view}
use initramfstool.Blockdev.{flush_round, flush_list, cache_flush, cache_write_back}
use initramfstool.Blockdev.Unseen.{
  IsUnseen, IsUnseen-refl, IsUnseen-trans, flush_buf-IsUnseen, counted,
}
use initramfstool.Blockdev.Shaken.{length-remove_lt, no_length}

list_member : (k : ℕ) (s : Bdev) → IsValid s → has s.dirty_list k ≡ true → has s.lba_root k ≡ true
list_member k s v h = (let e = (v.nodes k).listed in ground arith)

first_listed : (k : ℕ) (l : List ℕ) → has (k ∷ l) k ≡ true
unfolding has
first_listed k l = rw (==-self k) refl

-- The block at `j` is on the device, or its buffer is on the list of those that are to be written.
abbrev pub IsPutOff : Bdev → ℕ → Type 0
IsPutOff s j = (is_pending s j ≡ false) ⊎ (has s.dirty_list j ≡ true)

-- Blocks are written that had been put off.
record IsFlushed (s t : Bdev) : Type 0 where
  pub unseen : IsUnseen s t
  pub put_off : (j : ℕ) → IsPutOff s j → IsPutOff t j

IsFlushed-refl : {s : Bdev} → IsValid s → IsFlushed s s
IsFlushed-refl v = record { unseen = IsUnseen-refl v; put_off = λ j p. p }

IsFlushed-trans : {s t u : Bdev} → IsFlushed s t → IsFlushed t u → IsFlushed s u
IsFlushed-trans f g = record {
  unseen = IsUnseen-trans f.unseen g.unseen;
  put_off = λ j p. g.put_off j (f.put_off j p);
}

module _ (k : ℕ) (s : Bdev) (v : IsValid s) (on : has s.dirty_list k ≡ true) where
  member : has s.lba_root k ≡ true
  member = list_member k s v on

  own-IsPutOff : IsPutOff s k → IsPutOff (flush_buf s k).1 k
  unfolding blocks_set_direct bdif_bwrite
  own-IsPutOff =
      ways s k (listed k s v member) (λ p. IsPutOff s k → IsPutOff p.1 k) (λ off p. p)
        (λ both e p. inl (rw (==-self k) refl)) (λ both e p. p)

  flush_buf-IsFlushed : IsFlushed s (flush_buf s k).1
  flush_buf-IsFlushed = record {
    unseen = flush_buf-IsUnseen k s v member;
    put_off = λ j p. elim (Bool-cases (k == j)) [
      | inl e ↦
          let same : k ≡ j = ground arith in
          subst (λ (n : ℕ). IsPutOff s n → IsPutOff (flush_buf s k).1 n) same own-IsPutOff p
      | inr ne ↦
          let f = IsStep.frame (flush_buf-IsStep k s v member) in
          rw (IsFrame.bufs f j ne, IsFrame.listed f j ne) p
    ];
  }

round-IsFlushed :
    (next : Bdev → ℕ × Bdev) (s : Bdev) (l : List ℕ)
    → ((t : Bdev) → IsValid t → IsFlushed t (next t).1)
    → IsValid s
    → s.dirty_list ≡ l
    → IsFlushed s (flush_round next l s).1
unfolding flush_round
round-IsFlushed next s [] ih v e = IsFlushed-refl v
round-IsFlushed next s (k ∷ l) ih v e =
    let f = flush_buf-IsFlushed k s v (rw e (first_listed k l)) in
    elim (Bool-cases ((flush_buf s k).0 == eok)) [
      | inl r ↦ rw r (IsFlushed-trans f (ih (flush_buf s k).1 f.unseen.valid))
      | inr r ↦ rw r f
    ]

flush_list-IsFlushed : (fuel : ℕ) (s : Bdev) → IsValid s → IsFlushed s (flush_list fuel s).1
unfolding flush_list
flush_list-IsFlushed zero s v = IsFlushed-refl v
flush_list-IsFlushed (suc fuel) s v =
    round-IsFlushed (flush_list fuel) s s.dirty_list (flush_list-IsFlushed fuel) v refl

round_empties :
    (next : Bdev → ℕ × Bdev) (fuel : ℕ) (s : Bdev) (l : List ℕ)
    → ((t : Bdev)
        → IsValid t
        → length t.dirty_list ≤ fuel
        → (next t).0 ≡ eok
        → (next t).1.dirty_list ≡ [])
    → IsValid s
    → s.dirty_list ≡ l
    → length s.dirty_list ≤ suc fuel
    → (flush_round next l s).0 ≡ eok
    → (flush_round next l s).1.dirty_list ≡ []
unfolding flush_round
round_empties next fuel s [] ih v e enough r = e
round_empties next fuel s (k ∷ l) ih v e enough r =
    let on : has s.dirty_list k ≡ true = rw e (first_listed k l) in
    let member = list_member k s v on in
    let u = flush_buf-IsUnseen k s v member in
    elim (Bool-cases ((flush_buf s k).0 == eok)) [
      | inl q ↦
          let shorter = length-remove_lt k s.dirty_list on in
          rw q (
            ih (flush_buf s k).1 u.valid (rw (flush_buf-dirty_list k s v member on q) (omega arith))
              (rw q at r))
      | inr q ↦ absurd (ground arith)
    ]

flush_list_empties :
    (fuel : ℕ) (s : Bdev)
    → IsValid s
    → length s.dirty_list ≤ fuel
    → (flush_list fuel s).0 ≡ eok
    → (flush_list fuel s).1.dirty_list ≡ []
unfolding flush_list
flush_list_empties zero s v enough r = no_length s.dirty_list enough
flush_list_empties (suc fuel) s v enough r =
    round_empties (flush_list fuel) fuel s s.dirty_list (flush_list_empties fuel) v refl enough r

cache_flush-IsFlushed : (s : Bdev) → IsValid s → IsFlushed s (cache_flush s).1
unfolding cache_flush
cache_flush-IsFlushed s v = flush_list-IsFlushed (length s.dirty_list) s v

pub cache_flush-IsUnseen : (s : Bdev) → IsValid s → IsUnseen s (cache_flush s).1
cache_flush-IsUnseen s v = IsFlushed.unseen (cache_flush-IsFlushed s v)

pub cache_flush_empties :
    (s : Bdev) → IsValid s → (cache_flush s).0 ≡ eok → (cache_flush s).1.dirty_list ≡ []
unfolding cache_flush
cache_flush_empties s v r = flush_list_empties (length s.dirty_list) s v (omega arith) r

still_on : (t : Bdev) (j : ℕ) → t.dirty_list ≡ [] → has t.dirty_list j ≡ true → ⊥
unfolding has
still_on t j e on = (let h = rw e at on in ground arith)

synced_view : (s : Bdev) (j : ℕ) → IsValid s → is_pending s j ≡ false → view s j ≡ block_at s j
unfolding view seen
synced_view s j v off = elim (Bool-cases (has s.lba_root j)) [
  | inl m ↦ clean_view j s v m off
  | inr n ↦ rw n refl
]

-- When `ext4_block_cache_flush` succeeds, every block whose write was put off, or that had nothing to
-- write, is on the device as it was seen before. In a well-formed cache.
pub cache_flush_durable :
    (s : Bdev) (j : ℕ)
    → IsValid s
    → (cache_flush s).0 ≡ eok
    → IsPutOff s j
    → j < s.lg_bcnt
    → block_at (cache_flush s).1 j ≡ view s j
cache_flush_durable s j v r p h =
    let f = cache_flush-IsFlushed s v in
    let off : is_pending (cache_flush s).1 j ≡ false = elim (f.put_off j p) [
      | inl off ↦ off
      | inr on ↦ absurd (still_on (cache_flush s).1 j (cache_flush_empties s v r) on)
    ] in
    sym (synced_view (cache_flush s).1 j f.unseen.valid off) ∙ f.unseen.same j h

-- `ext4_block_cache_write_back` changes no block.
pub cache_write_back-IsUnseen :
    (s : Bdev) (on_off : Bool) → IsValid s → IsUnseen s (cache_write_back s on_off).1
unfolding cache_write_back
cache_write_back-IsUnseen s on_off v =
    let ctr = if on_off then u32 (s.cache_write_back + 1) else s.cache_write_back - 1 in
    let u = counted s s.outcomes s.ph_refctr ctr s.bread_ctr s.dont_shake v in
    elim (Bool-cases (ctr == 0)) [
      | inl e ↦
          simp e
            (IsUnseen-trans u (cache_flush-IsUnseen (record s { cache_write_back = ctr }) u.valid))
      | inr e ↦ simp e u
    ]
