-- ===== src/Hash/Tests.antt =====
-- Hashes of short names.
use initramfstool.Base.{ℕ, ◌≡◌, refl, none, List, [], ◌∷◌}
use initramfstool.Hash.{
  md4_f, md4_g, md4_h, rotate_left, ff, gg, hh, four, half_md4, tea_rounds, tea, char_val,
  prep_chars, paddings, prep_hashbuf, hash_blocks, legacy_loop, legacy_hash, raw_hash, final_major,
  finish_hash, htree_hash,
}
use initramfstool.Hash.Bounds.{IsMajor, htree_hash-IsMajor}

abbrev short_name : List ℕ
short_name = 97 ∷ 98 ∷ 99 ∷ 100 ∷ 101 ∷ []

-- More than one block of sixteen characters.
abbrev long_name : List ℕ
long_name =
    97 ∷ 98 ∷ 99 ∷ 100 ∷ 101 ∷ 102 ∷ 103 ∷ 104 ∷ 105 ∷ 106 ∷ 107 ∷ 108 ∷ 109 ∷ 110 ∷ 111 ∷ 112 ∷ 113
    ∷ 114 ∷ 115 ∷ 116 ∷ []

half_md4_short : htree_hash short_name none 1 ≡ (0, 1478591502, 485009452)
unfolding htree_hash finish_hash final_major raw_hash hash_blocks prep_hashbuf prep_chars paddings
    char_val half_md4 four ff gg hh rotate_left md4_f md4_g md4_h tea tea_rounds legacy_hash
    legacy_loop
half_md4_short = refl

tea_long : htree_hash long_name none 2 ≡ (0, 2585347414, 2664209350)
unfolding htree_hash finish_hash final_major raw_hash hash_blocks prep_hashbuf prep_chars paddings
    char_val half_md4 four ff gg hh rotate_left md4_f md4_g md4_h tea tea_rounds legacy_hash
    legacy_loop
tea_long = refl

htree_hash-IsMajor_example : IsMajor (htree_hash short_name none 0).1
htree_hash-IsMajor_example = htree_hash-IsMajor short_name none 0
