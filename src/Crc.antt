-- ===== src/Crc.antt =====
-- The checksums: SharpExt4/lwext4/src/ext4_crc32.c, and `ext4_bg_crc16` of src/ext4_block_group.c.
-- A buffer of `size` bytes is the list of its bytes.
pub mod Tables
pub mod Serial
pub mod Detects
pub mod Bounds
mod Tests
use initramfstool.Base.{ℕ, ◌*◌, ◌/◌, ◌^◌, bit_and, bit_xor, List, [], ◌∷◌, get_or}
use Tables.{crc32_tab, crc32c_tab, crc16_tab}

-- `crc32` of the source, whose last argument is the table.
pub crc32_with : List ℕ → ℕ → List ℕ → ℕ
crc32_with tab crc [] = crc
crc32_with tab crc (b ∷ buf) =
    crc32_with tab (bit_xor (get_or tab (bit_and (bit_xor crc b) 0xff) 0) (crc / 2 ^ 8)) buf

unfoldable pub crc32 : ℕ → List ℕ → ℕ
crc32 crc buf = crc32_with crc32_tab crc buf

unfoldable pub crc32c : ℕ → List ℕ → ℕ
crc32c crc buf = crc32_with crc32c_tab crc buf

pub crc16 : ℕ → List ℕ → ℕ
crc16 crc [] = crc
crc16 crc (b ∷ buf) =
    let low = bit_and (crc / 2 ^ 8) 0xff in
    crc16 (bit_and (bit_xor low (get_or crc16_tab (bit_and (bit_xor crc b) 0xff) 0)) 0xffff) buf
