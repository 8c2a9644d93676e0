-- ===== src/Bdev/Spans.antt =====
-- Reading and writing runs of bytes.
use initramfstool.Base.{
  ℕ, zero, suc, ◌+◌, ◌<◌, ◌≤◌, ◌≡◌, ◌⊎◌, refl, ap, ap₂, ◌∙◌, arith, List, [], ◌∷◌, get_or, length,
  take,
}
use initramfstool.Bdev.{read_span, write_span}

pub length-read_span : (disk : ℕ → ℕ) (start n : ℕ) → length (read_span disk start n) ≡ n
unfolding read_span
length-read_span disk start zero = refl
length-read_span disk start (suc n) = ap suc (length-read_span disk (start + 1) n)

pub take_all {ℓ} : {A : Type ℓ} (n : ℕ) (xs : List A) → length xs ≡ n → take n xs ≡ xs
take_all n [] h = let e : n ≡ 0 = omega arith in rw e refl
take_all zero (x ∷ xs) h = absurd (omega arith)
take_all (suc n) (x ∷ xs) h = ap (◌∷◌ x) (take_all n xs (omega arith))

-- Two memories that agree on the run read alike.
pub read_span-same :
    (d e : ℕ → ℕ) (start n : ℕ)
    → ((a : ℕ) → start ≤ a → a < start + n → d a ≡ e a)
    → read_span d start n ≡ read_span e start n
unfolding read_span
read_span-same d e start zero h = refl
read_span-same d e start (suc n) h =
    ap₂ (λ (x : ℕ) (xs : List ℕ). x ∷ xs) (h start (omega arith) (omega arith))
      (read_span-same d e (start + 1) n (λ a p q. h a (omega arith) (omega arith)))

at_zero : (start : ℕ) → start ≡ start + 0
at_zero start = omega arith

shift : (start i : ℕ) → start + 1 + i ≡ start + suc i
shift start i = omega arith

-- A memory that holds `bytes` from `start` on reads them.
read_span-bytes :
    (d : ℕ → ℕ) (start : ℕ) (bytes : List ℕ)
    → ((i : ℕ) → i < length bytes → d (start + i) ≡ get_or bytes i 0)
    → read_span d start (length bytes) ≡ bytes
unfolding read_span
read_span-bytes d start [] h = refl
read_span-bytes d start (b ∷ bytes) h =
    ap₂ (λ (x : ℕ) (xs : List ℕ). x ∷ xs) (ap d (at_zero start) ∙ h 0 (omega arith))
      (read_span-bytes d (start + 1) bytes (λ i p. ap d (shift start i) ∙ h (suc i) (omega arith)))

-- What has been written is read.
pub read_span-write_span :
    (d : ℕ → ℕ) (start : ℕ) (bytes : List ℕ)
    → read_span (write_span d start bytes) start (length bytes) ≡ bytes
unfolding write_span
read_span-write_span d start bytes =
    read_span-bytes (write_span d start bytes) start bytes (λ i h. ground arith)

-- What lies apart from the write is read as before.
pub read_span-write_span_apart :
    (d : ℕ → ℕ) (start : ℕ) (bytes : List ℕ) (at n : ℕ)
    → (at + n ≤ start) ⊎ (start + length bytes ≤ at)
    → read_span (write_span d start bytes) at n ≡ read_span d at n
unfolding write_span
read_span-write_span_apart d start bytes at n apart =
    read_span-same (write_span d start bytes) d at n (λ a p q. ground arith)
