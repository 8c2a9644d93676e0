-- ===== src/Crc/Tests.antt =====
-- Checksums of "123456789", and the theorems at it.
use initramfstool.Base.{ℕ, ◌≡◌, refl, List, [], ◌∷◌, arith}
use initramfstool.Crc.{crc32_with, crc32, crc32c, crc16}
use initramfstool.Crc.Serial.{serial, crc32-serial}

abbrev digits : List ℕ
digits = 0x31 ∷ 0x32 ∷ 0x33 ∷ 0x34 ∷ 0x35 ∷ 0x36 ∷ 0x37 ∷ 0x38 ∷ 0x39 ∷ []

-- The check values of the two published algorithms before their final inversion, and of CRC-16/ARC.
check_values :
    (crc32 0xffffffff digits ≡ 0x340bc6d9)
    × (crc32c 0xffffffff digits ≡ 0x1cf96d7c)
    × (crc16 0 digits ≡ 0xbb3d)
unfolding crc32 crc32c crc16 crc32_with
check_values = (refl, refl, refl)

crc32-serial_example :
    (crc32 0xffffffff digits ≡ serial 0xedb88320 0xffffffff digits)
    × (crc32c 0xffffffff digits ≡ serial 0x82f63b78 0xffffffff digits)
crc32-serial_example = crc32-serial 0xffffffff digits (omega arith)
