-- ===== src/Blockdev/Shaken.antt =====
-- Making room in the cache: `ext4_block_cache_shake`.
use initramfstool.Base.{
  ℕ, zero, suc, ◌<◌, ◌≤◌, ◌≡◌, refl, arith, Bool, true, false, List, [], ◌∷◌, ◌==◌, Bool-cases, inl,
  inr, ◌⊎◌, length, Option, none, some,
}
use initramfstool.Bdev.{Bdev, eok}
use initramfstool.Bcache.{has, remove, lowest, lowest_lru, flush_buf, is_full}
use initramfstool.Bcache.Sets.{has-lowest, lowest-some}
use initramfstool.Bcache.Valid.{IsValid}
use initramfstool.Bcache.Flushed.{flush_buf-lba_root, flush_buf-lru_root, flush_buf_clean}
use initramfstool.Bcache.Dropped.{drop_buf-dropped}
use initramfstool.Blockdev.{evict, shake_round, shake, cache_shake}
use initramfstool.Blockdev.Unseen.{
  IsUnseen, IsUnseen-refl, IsUnseen-trans, flush_buf-IsUnseen, drop_buf-IsUnseen, counted,
}

length-remove_le : (k : ℕ) (l : List ℕ) → length (remove k l) ≤ length l
unfolding remove
length-remove_le k [] = omega arith
length-remove_le k (x ∷ l) = ground (arith, length-remove_le k l)

pub length-remove_lt : (k : ℕ) (l : List ℕ) → has l k ≡ true → length (remove k l) < length l
unfolding remove has
length-remove_lt k [] h = absurd (ground arith)
length-remove_lt k (x ∷ l) h = ground (arith, length-remove_le k l, length-remove_lt k l)

pub lru_member : (k : ℕ) (s : Bdev) → IsValid s → has s.lru_root k ≡ true → has s.lba_root k ≡ true
lru_member k s v h = (let e = (v.nodes k).lru in ground arith)

-- A member of the cache is written and dropped.
module _ (k : ℕ) (s : Bdev) (v : IsValid s) (member : has s.lba_root k ≡ true) where
  flushed_member : has (flush_buf s k).1.lba_root k ≡ true
  flushed_member = rw (flush_buf-lba_root k s v member) member

  evict-IsUnseen : IsUnseen s (evict s k).1
  unfolding evict
  evict-IsUnseen = elim (Bool-cases (s.buf k).dirty) [
    | inr clean ↦ rw clean (drop_buf-IsUnseen k s v member (ground arith))
    | inl dirty ↦
        let u = flush_buf-IsUnseen k s v member in
        elim (Bool-cases ((flush_buf s k).0 == eok)) [
          | inl e ↦
              rw (dirty, e)
                (IsUnseen-trans u (
                  drop_buf-IsUnseen k (flush_buf s k).1 u.valid flushed_member
                    (flush_buf_clean k s v member e)))
          | inr e ↦ rw (dirty, e) u
        ]
  ]

  evict-lru_root : ((evict s k).0 == eok) ≡ true → (evict s k).1.lru_root ≡ remove k s.lru_root
  unfolding evict
  evict-lru_root r = elim (Bool-cases (s.buf k).dirty) [
    | inr clean ↦ rw (clean, drop_buf-dropped k s v member) refl
    | inl dirty ↦
        let u = flush_buf-IsUnseen k s v member in
        elim (Bool-cases ((flush_buf s k).0 == eok)) [
          | inl e ↦
              rw
                (
                  dirty,
                  e,
                  drop_buf-dropped k (flush_buf s k).1 u.valid flushed_member,
                  flush_buf-lru_root k s v member,
                )
                refl
          | inr e ↦ absurd (ground arith)
        ]
  ]

-- A round keeps the blocks as they are seen, if the rounds after it do.
round-IsUnseen :
    (next : Bdev → ℕ × Bdev) (s : Bdev) (lowest_node : Option ℕ)
    → ((t : Bdev) → IsValid t → IsUnseen t (next t).1)
    → IsValid s
    → ((k : ℕ) → lowest_node ≡ some k → has s.lba_root k ≡ true)
    → IsUnseen s (shake_round next lowest_node s).1
unfolding shake_round
round-IsUnseen next s none ih v member = IsUnseen-refl v
round-IsUnseen next s (some k) ih v member =
    let u = evict-IsUnseen k s v (member k refl) in
    elim (Bool-cases (is_full s)) [
      | inr room ↦ rw room (IsUnseen-refl v)
      | inl full ↦ elim (Bool-cases ((evict s k).0 == eok)) [
        | inl e ↦ rw (full, e) (IsUnseen-trans u (ih (evict s k).1 u.valid))
        | inr e ↦ rw (full, e) u
      ]
    ]

lowest_member : (s : Bdev) → IsValid s → (k : ℕ) → lowest_lru s ≡ some k → has s.lba_root k ≡ true
lowest_member s v k e = lru_member k s v (has-lowest s.buf s.lru_root k e)

shake-IsUnseen : (fuel : ℕ) (s : Bdev) → IsValid s → IsUnseen s (shake fuel s).1
unfolding shake
shake-IsUnseen zero s v = IsUnseen-refl v
shake-IsUnseen (suc fuel) s v =
    round-IsUnseen (shake fuel) s (lowest_lru s) (shake-IsUnseen fuel) v (lowest_member s v)

-- The cache has room, or all its buffers are referred to.
abbrev pub HasRoom : Bdev → Type 0
HasRoom s = (is_full s ≡ false) ⊎ (s.lru_root ≡ [])

no_lowest : (s : Bdev) → lowest_lru s ≡ none → HasRoom s
no_lowest s = go s.lru_root
  where
    go : (l : List ℕ) → lowest s.buf l ≡ none → (is_full s ≡ false) ⊎ (l ≡ [])
    go [] e = inr refl
    go (x ∷ l) e = (let (k, h) = lowest-some s.buf x l in cc)

round-HasRoom :
    (next : Bdev → ℕ × Bdev) (fuel : ℕ) (s : Bdev) (lowest_node : Option ℕ)
    → ((t : Bdev)
        → IsValid t
        → length t.lru_root ≤ fuel
        → ((next t).0 == eok) ≡ true
        → HasRoom (next t).1)
    → IsValid s
    → lowest_lru s ≡ lowest_node
    → length s.lru_root ≤ suc fuel
    → ((shake_round next lowest_node s).0 == eok) ≡ true
    → HasRoom (shake_round next lowest_node s).1
unfolding shake_round
round-HasRoom next fuel s none ih v low enough r = no_lowest s low
round-HasRoom next fuel s (some k) ih v low enough r =
    let member = lowest_member s v k low in
    let u = evict-IsUnseen k s v member in
    elim (Bool-cases (is_full s)) [
      | inr room ↦ rw room (inl room)
      | inl full ↦ elim (Bool-cases ((evict s k).0 == eok)) [
        | inl e ↦
            let shorter = length-remove_lt k s.lru_root (has-lowest s.buf s.lru_root k low) in
            rw (full, e)
              (ih (evict s k).1 u.valid (rw (evict-lru_root k s v member e) (omega arith))
                (rw (full, e) at r))
        | inr e ↦ absurd (ground arith)
      ]
    ]

pub no_length : (l : List ℕ) → length l ≤ 0 → l ≡ []
no_length [] h = refl
no_length (x ∷ l) h = absurd (omega arith)

shake-HasRoom :
    (fuel : ℕ) (s : Bdev)
    → IsValid s
    → length s.lru_root ≤ fuel
    → ((shake fuel s).0 == eok) ≡ true
    → HasRoom (shake fuel s).1
unfolding shake
shake-HasRoom zero s v enough r = inr (no_length s.lru_root enough)
shake-HasRoom (suc fuel) s v enough r =
    round-HasRoom (shake fuel) fuel s (lowest_lru s) (shake-HasRoom fuel) v refl enough r

-- The state in which the loop runs.
abbrev shaking : Bdev → Bdev
shaking s = record s { dont_shake = true }

marked : (s : Bdev) (mark : Bool) → IsValid s → IsUnseen s (record s { dont_shake = mark })
marked s mark v = counted s s.outcomes s.ph_refctr s.cache_write_back s.bread_ctr mark v

pub cache_shake-IsUnseen : (s : Bdev) → IsValid s → IsUnseen s (cache_shake s).1
unfolding cache_shake
cache_shake-IsUnseen s v = elim (Bool-cases s.dont_shake) [
  | inl off ↦ simp off (IsUnseen-refl v)
  | inr on ↦
      let u = marked s true v in
      let w = shake-IsUnseen (length s.lru_root) (shaking s) u.valid in
      simp on (
        IsUnseen-trans u
          (IsUnseen-trans w (marked (shake (length s.lru_root) (shaking s)).1 false w.valid)))
]

-- The loop of `ext4_block_cache_shake` ends: unless an error stops it, the cache has room afterwards or
-- all its buffers are referred to. In a well-formed cache.
pub cache_shake-HasRoom :
    (s : Bdev)
    → IsValid s
    → s.dont_shake ≡ false
    → (cache_shake s).0 ≡ eok
    → HasRoom (cache_shake s).1
unfolding cache_shake is_full
cache_shake-HasRoom s v on r = rw on (
    shake-HasRoom (length s.lru_root) (shaking s) (marked s true v).valid (omega arith)
      (ground (arith, rw on at r)))
