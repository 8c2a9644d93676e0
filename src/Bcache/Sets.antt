-- ===== src/Bcache/Sets.antt =====
-- The trees as sets: what insertion and removal do to membership, order and size.
use initramfstool.Base.{
  ℕ, suc, ◌≤◌, ◌≡◌, refl, arith, true, false, not, ◌&&◌, ◌||◌, List, [], ◌∷◌, ◌==◌, ==-self, ltb,
  length, Option, none, some, Bool-cases, inl, inr,
}
use initramfstool.Bdev.{Buf}
use initramfstool.Bcache.{has, insert, remove, lower, lowest}

pub has-insert : (k j : ℕ) (l : List ℕ) → has (insert k l) j ≡ (k == j) || has l j
unfolding has insert
has-insert k j [] = refl
has-insert k j (x ∷ l) = ground (arith, has-insert k j l)

pub has-remove : (k j : ℕ) (l : List ℕ) → has (remove k l) j ≡ not (k == j) && has l j
unfolding has remove
has-remove k j [] = ground arith
has-remove k j (x ∷ l) = ground (arith, has-remove k j l)

-- Strictly ascending, from `lo` on.
abbrev pub Ascends : ℕ → List ℕ → Type 0
Ascends lo [] = Unit
Ascends lo (x ∷ l) = (lo ≤ x) × Ascends (suc x) l

pub has-above : (lo k : ℕ) (l : List ℕ) → Ascends lo l → has l k ≡ true → lo ≤ k
unfolding has
has-above lo k [] v h = absurd (ground arith)
has-above lo k (x ∷ l) v h = ground (arith, has-above (suc x) k l v.1)

pub remove_absent : (k : ℕ) (l : List ℕ) → has l k ≡ false → remove k l ≡ l
unfolding has remove
remove_absent k [] h = refl
remove_absent k (x ∷ l) h = ground (arith, remove_absent k l)

Ascends-lower : (lo lo' : ℕ) (l : List ℕ) → lo' ≤ lo → Ascends lo l → Ascends lo' l
Ascends-lower lo lo' [] h v = tt
Ascends-lower lo lo' (x ∷ l) h v = (omega arith, v.1)

pub insert-Ascends : (lo k : ℕ) (l : List ℕ) → lo ≤ k → Ascends lo l → Ascends lo (insert k l)
unfolding insert
insert-Ascends lo k [] h v = (h, tt)
insert-Ascends lo k (x ∷ l) h v = elim (Bool-cases (ltb k x)) [
  | inl lt ↦ rw lt (h, (ground arith, v.1))
  | inr ge ↦ elim (Bool-cases (k == x)) [
    | inl e ↦ rw (ge, e) v
    | inr ne ↦ rw (ge, ne) (v.0, insert-Ascends (suc x) k l (ground arith) v.1)
  ]
]

pub remove-Ascends : (lo k : ℕ) (l : List ℕ) → Ascends lo l → Ascends lo (remove k l)
unfolding remove
remove-Ascends lo k [] v = tt
remove-Ascends lo k (x ∷ l) v = elim (Bool-cases (k == x)) [
  | inl e ↦
      rw e (
        Ascends-lower (suc x) lo (remove k l) (omega (arith, v.0)) (remove-Ascends (suc x) k l v.1))
  | inr ne ↦ rw ne (v.0, remove-Ascends (suc x) k l v.1)
]

pub length-insert : (k : ℕ) (l : List ℕ) → has l k ≡ false → length (insert k l) ≡ suc (length l)
unfolding has insert
length-insert k [] h = refl
length-insert k (x ∷ l) h = ground (arith, length-insert k l)

pub length-remove :
    (lo k : ℕ) (l : List ℕ) → Ascends lo l → has l k ≡ true → suc (length (remove k l)) ≡ length l
unfolding has remove
length-remove lo k [] v h = absurd (ground arith)
length-remove lo k (x ∷ l) v h =
    ground (arith, length-remove (suc x) k l v.1, remove_absent k l, has-above (suc x) k l v.1)

has-lower :
    (buf : ℕ → Buf) (x k : ℕ) (l : List ℕ) (y : Option ℕ)
    → ((i : ℕ) → y ≡ some i → has l i ≡ true)
    → lower buf x y ≡ some k
    → has (x ∷ l) k ≡ true
unfolding has lower
has-lower buf x k l none ih h = ground arith
has-lower buf x k l (some y) ih h = ground (arith, ih y refl)

-- The buffer that is dropped first is one of the tree.
pub has-lowest : (buf : ℕ → Buf) (l : List ℕ) (k : ℕ) → lowest buf l ≡ some k → has l k ≡ true
unfolding lowest
has-lowest buf [] k h = cc
has-lowest buf (x ∷ l) k h = has-lower buf x k l (lowest buf l) (has-lowest buf l) h

-- A tree that is not empty has a lowest.
lower-some : (buf : ℕ → Buf) (x : ℕ) (y : Option ℕ) → (k : ℕ) × (lower buf x y ≡ some k)
unfolding lower
lower-some buf x none = (x, refl)
lower-some buf x (some y) = elim (Bool-cases (ltb (buf y).lru_id (buf x).lru_id)) [
  | inl e ↦ (y, rw e refl)
  | inr e ↦ (x, rw e refl)
]

pub lowest-some : (buf : ℕ → Buf) (x : ℕ) (l : List ℕ) → (k : ℕ) × (lowest buf (x ∷ l) ≡ some k)
unfolding lowest
lowest-some buf x l = lower-some buf x (lowest buf l)

pub removed_self : (k : ℕ) (l : List ℕ) → has (remove k l) k ≡ false
removed_self k l = rw (has-remove k k l, ==-self k) refl

pub inserted_self : (k : ℕ) (l : List ℕ) → has (insert k l) k ≡ true
inserted_self k l = rw (has-insert k k l, ==-self k) refl
