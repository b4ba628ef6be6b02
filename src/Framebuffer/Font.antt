-- ===== src/Framebuffer/Font.antt =====
-- The font of framebuffer.rs: seven rows of five bits for a character, the bit 4 on the left.
use switchvisor.Base.{ℕ, List, [], ◌∷◌, ◌==◌, if◌then◌else◌}

-- The rows under the codes of the characters.
abbrev pub font : List (ℕ × List ℕ)
font =
    (32, 0 ∷ 0 ∷ 0 ∷ 0 ∷ 0 ∷ 0 ∷ 0 ∷ [])
    ∷ (65, 14 ∷ 17 ∷ 17 ∷ 31 ∷ 17 ∷ 17 ∷ 17 ∷ [])
    ∷ (66, 30 ∷ 17 ∷ 17 ∷ 30 ∷ 17 ∷ 17 ∷ 30 ∷ [])
    ∷ (67, 14 ∷ 17 ∷ 16 ∷ 16 ∷ 16 ∷ 17 ∷ 14 ∷ [])
    ∷ (68, 30 ∷ 17 ∷ 17 ∷ 17 ∷ 17 ∷ 17 ∷ 30 ∷ [])
    ∷ (69, 31 ∷ 16 ∷ 16 ∷ 30 ∷ 16 ∷ 16 ∷ 31 ∷ [])
    ∷ (70, 31 ∷ 16 ∷ 16 ∷ 30 ∷ 16 ∷ 16 ∷ 16 ∷ [])
    ∷ (71, 14 ∷ 17 ∷ 16 ∷ 23 ∷ 17 ∷ 17 ∷ 15 ∷ [])
    ∷ (72, 17 ∷ 17 ∷ 17 ∷ 31 ∷ 17 ∷ 17 ∷ 17 ∷ [])
    ∷ (73, 14 ∷ 4 ∷ 4 ∷ 4 ∷ 4 ∷ 4 ∷ 14 ∷ [])
    ∷ (74, 7 ∷ 2 ∷ 2 ∷ 2 ∷ 2 ∷ 18 ∷ 12 ∷ [])
    ∷ (75, 17 ∷ 18 ∷ 20 ∷ 24 ∷ 20 ∷ 18 ∷ 17 ∷ [])
    ∷ (76, 16 ∷ 16 ∷ 16 ∷ 16 ∷ 16 ∷ 16 ∷ 31 ∷ [])
    ∷ (77, 17 ∷ 27 ∷ 21 ∷ 21 ∷ 17 ∷ 17 ∷ 17 ∷ [])
    ∷ (78, 17 ∷ 25 ∷ 21 ∷ 19 ∷ 17 ∷ 17 ∷ 17 ∷ [])
    ∷ (79, 14 ∷ 17 ∷ 17 ∷ 17 ∷ 17 ∷ 17 ∷ 14 ∷ [])
    ∷ (80, 30 ∷ 17 ∷ 17 ∷ 30 ∷ 16 ∷ 16 ∷ 16 ∷ [])
    ∷ (81, 14 ∷ 17 ∷ 17 ∷ 17 ∷ 21 ∷ 18 ∷ 13 ∷ [])
    ∷ (82, 30 ∷ 17 ∷ 17 ∷ 30 ∷ 20 ∷ 18 ∷ 17 ∷ [])
    ∷ (83, 15 ∷ 16 ∷ 16 ∷ 14 ∷ 1 ∷ 1 ∷ 30 ∷ [])
    ∷ (84, 31 ∷ 4 ∷ 4 ∷ 4 ∷ 4 ∷ 4 ∷ 4 ∷ [])
    ∷ (85, 17 ∷ 17 ∷ 17 ∷ 17 ∷ 17 ∷ 17 ∷ 14 ∷ [])
    ∷ (86, 17 ∷ 17 ∷ 17 ∷ 17 ∷ 17 ∷ 10 ∷ 4 ∷ [])
    ∷ (87, 17 ∷ 17 ∷ 17 ∷ 21 ∷ 21 ∷ 21 ∷ 10 ∷ [])
    ∷ (88, 17 ∷ 17 ∷ 10 ∷ 4 ∷ 10 ∷ 17 ∷ 17 ∷ [])
    ∷ (89, 17 ∷ 17 ∷ 10 ∷ 4 ∷ 4 ∷ 4 ∷ 4 ∷ [])
    ∷ (90, 31 ∷ 1 ∷ 2 ∷ 4 ∷ 8 ∷ 16 ∷ 31 ∷ [])
    ∷ (48, 14 ∷ 17 ∷ 19 ∷ 21 ∷ 25 ∷ 17 ∷ 14 ∷ [])
    ∷ (49, 4 ∷ 12 ∷ 4 ∷ 4 ∷ 4 ∷ 4 ∷ 14 ∷ [])
    ∷ (50, 14 ∷ 17 ∷ 1 ∷ 2 ∷ 4 ∷ 8 ∷ 31 ∷ [])
    ∷ (51, 30 ∷ 1 ∷ 1 ∷ 14 ∷ 1 ∷ 1 ∷ 30 ∷ [])
    ∷ (52, 2 ∷ 6 ∷ 10 ∷ 18 ∷ 31 ∷ 2 ∷ 2 ∷ [])
    ∷ (53, 31 ∷ 16 ∷ 16 ∷ 30 ∷ 1 ∷ 1 ∷ 30 ∷ [])
    ∷ (54, 14 ∷ 16 ∷ 16 ∷ 30 ∷ 17 ∷ 17 ∷ 14 ∷ [])
    ∷ (55, 31 ∷ 1 ∷ 2 ∷ 4 ∷ 8 ∷ 8 ∷ 8 ∷ [])
    ∷ (56, 14 ∷ 17 ∷ 17 ∷ 14 ∷ 17 ∷ 17 ∷ 14 ∷ [])
    ∷ (57, 14 ∷ 17 ∷ 17 ∷ 15 ∷ 1 ∷ 1 ∷ 14 ∷ [])
    ∷ (61, 0 ∷ 0 ∷ 31 ∷ 0 ∷ 31 ∷ 0 ∷ 0 ∷ [])
    ∷ (58, 0 ∷ 4 ∷ 4 ∷ 0 ∷ 4 ∷ 4 ∷ 0 ∷ [])
    ∷ (46, 0 ∷ 0 ∷ 0 ∷ 0 ∷ 0 ∷ 4 ∷ 4 ∷ [])
    ∷ (44, 0 ∷ 0 ∷ 0 ∷ 0 ∷ 0 ∷ 4 ∷ 8 ∷ [])
    ∷ (45, 0 ∷ 0 ∷ 0 ∷ 31 ∷ 0 ∷ 0 ∷ 0 ∷ [])
    ∷ (95, 0 ∷ 0 ∷ 0 ∷ 0 ∷ 0 ∷ 0 ∷ 31 ∷ [])
    ∷ (47, 1 ∷ 2 ∷ 2 ∷ 4 ∷ 8 ∷ 8 ∷ 16 ∷ [])
    ∷ (91, 14 ∷ 8 ∷ 8 ∷ 8 ∷ 8 ∷ 8 ∷ 14 ∷ [])
    ∷ (93, 14 ∷ 2 ∷ 2 ∷ 2 ∷ 2 ∷ 2 ∷ 14 ∷ [])
    ∷ (40, 2 ∷ 4 ∷ 8 ∷ 8 ∷ 8 ∷ 4 ∷ 2 ∷ [])
    ∷ (41, 8 ∷ 4 ∷ 2 ∷ 2 ∷ 2 ∷ 4 ∷ 8 ∷ [])
    ∷ (43, 0 ∷ 4 ∷ 4 ∷ 31 ∷ 4 ∷ 4 ∷ 0 ∷ [])
    ∷ (33, 4 ∷ 4 ∷ 4 ∷ 4 ∷ 4 ∷ 0 ∷ 4 ∷ [])
    ∷ (60, 1 ∷ 2 ∷ 4 ∷ 8 ∷ 4 ∷ 2 ∷ 1 ∷ [])
    ∷ (62, 16 ∷ 8 ∷ 4 ∷ 2 ∷ 4 ∷ 8 ∷ 16 ∷ [])
    ∷ []

-- The question mark, of every other byte.
abbrev pub unknown : List ℕ
unknown = 14 ∷ 17 ∷ 1 ∷ 2 ∷ 4 ∷ 0 ∷ 4 ∷ []

unfoldable pub find_glyph : ℕ → List (ℕ × List ℕ) → List ℕ
find_glyph byte [] = unknown
find_glyph byte ((code, rows) ∷ rest) =
    let found = find_glyph byte rest in if byte == code then rows else found

unfoldable pub glyph : ℕ → List ℕ
glyph byte = find_glyph byte font
