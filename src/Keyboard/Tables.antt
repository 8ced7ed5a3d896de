-- ===== src/Keyboard/Tables.antt =====
-- The scancode tables of kernel/IDT/ISRs/keyboard/scancode_map.h and shifted_scancode_map.h. A
-- character is its code.
use my_operating_system.Base.{ℕ, List, [], ◌∷◌}

unfoldable pub scancode_map_indexes : List ℕ
scancode_map_indexes =
    0x29 ∷ 0x02 ∷ 0x03 ∷ 0x04 ∷ 0x05 ∷ 0x06 ∷ 0x07 ∷ 0x08 ∷ 0x09 ∷ 0x0A ∷ 0x0B ∷ 0x0C ∷ 0x0D ∷ 0x0E
    ∷ 0x0F ∷ 0x10 ∷ 0x11 ∷ 0x12 ∷ 0x13 ∷ 0x14 ∷ 0x15 ∷ 0x16 ∷ 0x17 ∷ 0x18 ∷ 0x19 ∷ 0x1A ∷ 0x1B
    ∷ 0x2B ∷ 0x1E ∷ 0x1F ∷ 0x20 ∷ 0x21 ∷ 0x22 ∷ 0x23 ∷ 0x24 ∷ 0x25 ∷ 0x26 ∷ 0x27 ∷ 0x28 ∷ 0x1C
    ∷ 0x2C ∷ 0x2D ∷ 0x2E ∷ 0x2F ∷ 0x30 ∷ 0x31 ∷ 0x32 ∷ 0x33 ∷ 0x34 ∷ 0x35 ∷ 0x39 ∷ 0x37 ∷ 0x47
    ∷ 0x48 ∷ 0x49 ∷ 0x4A ∷ 0x4B ∷ 0x4C ∷ 0x4D ∷ 0x4E ∷ 0x4F ∷ 0x50 ∷ 0x51 ∷ 0x52 ∷ 0x39 ∷ 0x39
    ∷ 0x39 ∷ 0x39 ∷ 0x39 ∷ []

unfoldable pub scancode_map_values : List ℕ
scancode_map_values =
    96 ∷ 49 ∷ 50 ∷ 51 ∷ 52 ∷ 53 ∷ 54 ∷ 55 ∷ 56 ∷ 57 ∷ 48 ∷ 45 ∷ 61 ∷ 8 ∷ 9 ∷ 113 ∷ 119 ∷ 101 ∷ 114
    ∷ 116 ∷ 121 ∷ 117 ∷ 105 ∷ 111 ∷ 112 ∷ 91 ∷ 93 ∷ 92 ∷ 97 ∷ 115 ∷ 100 ∷ 102 ∷ 103 ∷ 104 ∷ 106
    ∷ 107 ∷ 108 ∷ 59 ∷ 39 ∷ 10 ∷ 122 ∷ 120 ∷ 99 ∷ 118 ∷ 98 ∷ 110 ∷ 109 ∷ 44 ∷ 46 ∷ 47 ∷ 32 ∷ 42 ∷ 55
    ∷ 56 ∷ 57 ∷ 45 ∷ 52 ∷ 53 ∷ 54 ∷ 43 ∷ 49 ∷ 50 ∷ 51 ∷ 48 ∷ 46 ∷ 32 ∷ 32 ∷ 32 ∷ 32 ∷ []

unfoldable pub shifted_scancode_map_indexes : List ℕ
shifted_scancode_map_indexes =
    0x29 ∷ 0x02 ∷ 0x03 ∷ 0x04 ∷ 0x05 ∷ 0x06 ∷ 0x07 ∷ 0x08 ∷ 0x09 ∷ 0x0A ∷ 0x0B ∷ 0x0C ∷ 0x0D ∷ 0x0E
    ∷ 0x0F ∷ 0x10 ∷ 0x11 ∷ 0x12 ∷ 0x13 ∷ 0x14 ∷ 0x15 ∷ 0x16 ∷ 0x17 ∷ 0x18 ∷ 0x19 ∷ 0x1A ∷ 0x1B
    ∷ 0x2B ∷ 0x1E ∷ 0x1F ∷ 0x20 ∷ 0x21 ∷ 0x22 ∷ 0x23 ∷ 0x24 ∷ 0x25 ∷ 0x26 ∷ 0x27 ∷ 0x28 ∷ 0x1C
    ∷ 0x2C ∷ 0x2D ∷ 0x2E ∷ 0x2F ∷ 0x30 ∷ 0x31 ∷ 0x32 ∷ 0x33 ∷ 0x34 ∷ 0x35 ∷ 0x39 ∷ []

unfoldable pub shifted_scancode_map_values : List ℕ
shifted_scancode_map_values =
    126 ∷ 33 ∷ 64 ∷ 35 ∷ 36 ∷ 37 ∷ 94 ∷ 38 ∷ 42 ∷ 40 ∷ 41 ∷ 95 ∷ 43 ∷ 8 ∷ 9 ∷ 81 ∷ 87 ∷ 69 ∷ 82 ∷ 84
    ∷ 89 ∷ 85 ∷ 73 ∷ 79 ∷ 80 ∷ 123 ∷ 125 ∷ 124 ∷ 65 ∷ 83 ∷ 68 ∷ 70 ∷ 71 ∷ 72 ∷ 74 ∷ 75 ∷ 76 ∷ 58
    ∷ 34 ∷ 10 ∷ 90 ∷ 88 ∷ 67 ∷ 86 ∷ 66 ∷ 78 ∷ 77 ∷ 60 ∷ 62 ∷ 63 ∷ 32 ∷ []

abbrev pub map_size : ℕ
map_size = 64

abbrev pub shifted_map_size : ℕ
shifted_map_size = 51
