-- ===== src/Blockdev/Bytes/Overlaps.antt =====
-- Writes to the device that overlap or follow each other.
use initramfstool.Base.{
  ℕ, ◌+◌, ◌-◌, ◌≤◌, ◌≡◌, refl, ap, ◌∙◌, arith, true, false, ◌&&◌, List, ltb, leb, length, take,
  drop, get_or, Bool-cases, inl, inr,
}
use initramfstool.Bdev.{read_span, write_span}
use initramfstool.Bdev.Spans.{length-read_span}
use initramfstool.Blockdev.Bytes.{copy_to}
use initramfstool.Blockdev.Bytes.Copies.{
  length-copy_to, get_or-copy_to, get_or-read_span, get_or-take, get_or-drop, length-take,
  length-drop,
}

-- A write in two parts.
pub halves :
    (d : ℕ → ℕ) (start n : ℕ) (bytes : List ℕ) (a : ℕ)
    → n ≤ length bytes
    → write_span (write_span d start (take n bytes)) (start + n) (drop n bytes) a
      ≡ write_span d start bytes a
unfolding write_span
halves d start n bytes a h =
    rw (length-take n bytes h, length-drop n bytes, get_or-drop n bytes (a - (start + n)))
      (elim (Bool-cases (leb (start + n) a && ltb a (start + n + (length bytes - n)))) [
        | inl upper ↦
            let inside : (leb start a && ltb a (start + length bytes)) ≡ true = ground arith in
            let e : n + (a - (start + n)) ≡ a - start = ground arith in
            rw (upper, inside) (ap (λ (i : ℕ). get_or bytes i 0) e)
        | inr not_upper ↦ elim (Bool-cases (leb start a && ltb a (start + n))) [
          | inl lower ↦
              let inside : (leb start a && ltb a (start + length bytes)) ≡ true = ground arith in
              rw (not_upper, lower, inside) (get_or-take n bytes (a - start) (ground arith))
          | inr out ↦
              let outside : (leb start a && ltb a (start + length bytes)) ≡ false = ground arith in
              rw (not_upper, out, outside) refl
        ]
      ])

-- A run is read, changed in part and written.
pub part_changed :
    (d : ℕ → ℕ) (start n at : ℕ) (bytes : List ℕ) (a : ℕ)
    → at + length bytes ≤ n
    → write_span d start (copy_to (read_span d start n) at bytes) a
      ≡ write_span d (start + at) bytes a
unfolding write_span
part_changed d start n at bytes a h =
    let size = length-read_span d start n in
    rw
      (
        length-copy_to (read_span d start n) at bytes,
        size,
        get_or-copy_to (read_span d start n) at bytes (a - start) (omega arith),
      )
      (elim (Bool-cases (leb (start + at) a && ltb a (start + at + length bytes))) [
        | inl changed ↦
            let block : (leb start a && ltb a (start + n)) ≡ true = ground arith in
            let part : (leb at (a - start) && ltb (a - start) (at + length bytes)) ≡ true =
              ground arith in
            let e : a - start - at ≡ a - (start + at) = omega arith in
            rw (changed, block, part) (ap (λ (i : ℕ). get_or bytes i 0) e)
        | inr kept ↦ elim (Bool-cases (leb start a && ltb a (start + n))) [
          | inr out ↦ rw (kept, out) refl
          | inl block ↦
              let part : (leb at (a - start) && ltb (a - start) (at + length bytes)) ≡ false =
                ground arith in
              let e : start + (a - start) ≡ a = ground arith in
              rw (kept, block, part)
                (get_or-read_span d start n (a - start) (ground arith) ∙ ap d e)
        ]
      ])

pub nothing :
    (d : ℕ → ℕ) (start : ℕ) (bytes : List ℕ) (a : ℕ)
    → length bytes ≡ 0
    → write_span d start bytes a ≡ d a
unfolding write_span
nothing d start bytes a h = ground (arith, h)
