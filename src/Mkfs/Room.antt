-- ===== src/Mkfs/Room.antt =====
-- The room that `create_fs_aux_info` leaves in the last group.
use initramfstool.Base.{
  ℕ, ◌+◌, ◌-◌, ◌*◌, ◌/◌, ◌%◌, ◌^◌, ◌<◌, ◌≤◌, ◌≡◌, ◌⊎◌, inl, inr, refl, ◌∙◌, arith, true, u32, u64,
  ltb,
}
use native.Mathlib.Nat.{
  le_refl, mul-le-mul_left, lt_of_mul-lt-mul_right, div-add-mod', mod-lt, mul-mod_left,
}
use initramfstool.Bdev.{eok}
use initramfstool.Super.{sub32}
use initramfstool.Mkfs.{
  MkfsInfo, AuxInfo, div_round_up64, last_header_size, drop_last_group, all_groups,
  create_fs_aux_info,
}

-- The groups of `p` blocks hold the `len` blocks, none of them is empty, and the last one is whole or
-- has its header. Of the `total` blocks, less than a group is left out.
pub record HasRoom (p header total len groups : ℕ) : Type 0 where
  pub within : len ≤ total
  pub few_left : total < len + p
  pub hold : len ≤ groups * p
  pub none_empty : groups * p < len + p
  pub last_fits : (len % p ≡ 0) ⊎ (header ≤ len % p)

round_up-bounds :
    (n p : ℕ)
    → 1 ≤ p
    → n + p < 2 ^ 32
    → (n ≤ div_round_up64 n p * p) × (div_round_up64 n p * p < n + p)
unfolding div_round_up64
round_up-bounds n p some fits =
    let inside : u64 (n + p + 2 ^ 64 - 1) ≡ n + p - 1 = omega arith in
    let whole = div-add-mod' (n + p - 1) p in
    let rest = mod-lt (n + p - 1) some in rw inside (omega arith, omega arith)

less_one :
    (n p groups : ℕ)
    → 1 ≤ p
    → 0 < n % p
    → n ≤ groups * p
    → groups * p < n + p
    → (n - n % p ≡ n / p * p) × (groups ≡ n / p + 1)
less_one n p groups some rest hold few =
    let whole = div-add-mod' n p in
    let below = mod-lt n some in
    let past : n / p * p < groups * p = omega arith in
    let two : groups * p < (n / p + 2) * p = grind arith in
    (omega arith, omega (arith, lt_of_mul-lt-mul_right p past, lt_of_mul-lt-mul_right p two))

dropped-HasRoom :
    (n p header groups : ℕ)
    → 1 ≤ p
    → n + p < 2 ^ 32
    → 0 < n % p
    → n ≤ groups * p
    → groups * p < n + p
    → HasRoom p header n (n - n % p) (groups - 1)
dropped-HasRoom n p header groups some fits rest hold few =
    let (len, count) = less_one n p groups some rest hold few in
    let one : groups - 1 ≡ n / p = omega (arith, count) in
    let whole = div-add-mod' n p in
    let below = mod-lt n some in
    rw (len, one)
      (record {
        within = omega arith;
        few_left = omega arith;
        hold = omega arith;
        none_empty = omega arith;
        last_fits = inl (mul-mod_left (n / p) p);
      })

drop_last_group-cases :
    (aux : AuxInfo) (info : MkfsInfo)
    → let rest = u32 (aux.len_blocks % info.blocks_per_group) in
      let out = drop_last_group aux info in
      (out ≡ aux) × ((rest ≡ 0) ⊎ (last_header_size aux info ≤ rest))
      ⊎ (0 < rest)
        × (out.len_blocks ≡ u64 (aux.len_blocks + 2 ^ 64 - rest))
        × (out.groups ≡ sub32 aux.groups 1)
unfolding drop_last_group
drop_last_group-cases aux info = ground arith

drop_last_group-HasRoom :
    (aux : AuxInfo) (info : MkfsInfo)
    → 1 ≤ info.blocks_per_group
    → aux.len_blocks + info.blocks_per_group < 2 ^ 32
    → aux.len_blocks ≤ aux.groups * info.blocks_per_group
    → aux.groups * info.blocks_per_group < aux.len_blocks + info.blocks_per_group
    → aux.groups < 2 ^ 32
    → let out = drop_last_group aux info in
      HasRoom info.blocks_per_group
        (last_header_size out info)
        aux.len_blocks
        out.len_blocks
        out.groups
drop_last_group-HasRoom aux info some fits hold few small =
    let p = info.blocks_per_group in
    let n = aux.len_blocks in
    let below = mod-lt n some in
    let same : u32 (n % p) ≡ n % p = omega arith in
    elim (drop_last_group-cases aux info) [
      | inl (kept, last) ↦ rw kept (record {
        within = le_refl _;
        few_left = omega arith;
        hold = hold;
        none_empty = few;
        last_fits = rw⁻¹ same last;
      })
      | inr (rest, len, groups) ↦
          let used : 0 < n % p = omega (arith, rest, same) in
          let (_, count) = less_one n p aux.groups some used hold few in
          let less : u64 (n + 2 ^ 64 - u32 (n % p)) ≡ n - n % p = omega arith in
          let one : sub32 aux.groups 1 ≡ aux.groups - 1 = omega (arith, count) in
          rw (len ∙ less, groups ∙ one) (dropped-HasRoom n p _ aux.groups some fits used hold few)
    ]

all_groups-bounds :
    (info : MkfsInfo)
    → 1024 < info.block_size
    → 1 ≤ info.blocks_per_group
    → info.len / info.block_size + info.blocks_per_group < 2 ^ 32
    → let aux = all_groups info in
      (aux.len_blocks ≡ info.len / info.block_size)
      × (aux.len_blocks ≤ aux.groups * info.blocks_per_group)
      × (aux.groups * info.blocks_per_group < aux.len_blocks + info.blocks_per_group)
      × (aux.groups < 2 ^ 32)
unfolding all_groups
all_groups-bounds info size some fits =
    let n = info.len / info.block_size in
    let p = info.blocks_per_group in
    let (hold, few) = round_up-bounds n p some fits in
    let large : ltb 1024 info.block_size ≡ true = ground arith in
    let all : u64 (n + 2 ^ 64 - 0) ≡ n = omega arith in
    let at : div_round_up64 n p * 1 ≤ div_round_up64 n p * p =
      mul-le-mul_left (div_round_up64 n p) some in
    let small : u32 (div_round_up64 n p) ≡ div_round_up64 n p = omega arith in
    rw (large, all, small) (refl, hold, few, omega arith)

-- With blocks of more than 1024 bytes, and both buffers given, the description succeeds; its groups hold
-- its blocks, none of them is empty, the last one is whole or has its header, and of the blocks of the
-- device less than a group is left out. The blocks and those of one group more are counted in 32 bits.
pub create_fs_aux_info-HasRoom :
    (info : MkfsInfo)
    → 1024 < info.block_size
    → 1 ≤ info.blocks_per_group
    → info.len / info.block_size + info.blocks_per_group < 2 ^ 32
    → let (code, aux) = create_fs_aux_info true true info in
      (code ≡ eok)
      × HasRoom info.blocks_per_group
          (last_header_size aux info)
          (info.len / info.block_size)
          aux.len_blocks
          aux.groups
unfolding create_fs_aux_info
create_fs_aux_info-HasRoom info size some fits =
    let (len, hold, few, small) = all_groups-bounds info size some fits in
    let room = drop_last_group-HasRoom (all_groups info) info some (rw len fits) hold few small in
    (refl, rw⁻¹ len room)
