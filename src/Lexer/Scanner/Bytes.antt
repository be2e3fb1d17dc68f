-- ===== src/Lexer/Scanner/Bytes.antt =====
-- src/domain/lexer/lexer.cpp: the tests on single bytes and on string prefixes.
use cythonpp.Prelude.{ℕ, ◌+◌, Bool, false, ◌&&◌, ◌||◌, [], ◌∷◌, leb, ◌==◌, if◌then◌else◌}
use cythonpp.Prelude.Text.{Text}

abbrev pub is_digit : ℕ → Bool
is_digit c = leb b'0' c && leb c b'9'

abbrev pub is_hex_digit : ℕ → Bool
is_hex_digit c = is_digit c || (leb b'a' c && leb c b'f') || (leb b'A' c && leb c b'F')

-- Bytes from 0x80 on are accepted.
abbrev pub is_identifier_start : ℕ → Bool
is_identifier_start c =
    (leb b'a' c && leb c b'z') || (leb b'A' c && leb c b'Z') || c == b'_' || leb 0x80 c

abbrev pub is_identifier_continue : ℕ → Bool
is_identifier_continue c = is_identifier_start c || is_digit c

-- `std::tolower` on a byte, in the default locale.
abbrev pub to_lower : ℕ → ℕ
to_lower c = if leb b'A' c && leb c b'Z' then c + 32 else c

unfoldable pub is_string_prefix : Text → Bool
is_string_prefix [] = false
is_string_prefix (a ∷ []) =
    let first = to_lower a in first == b'r' || first == b'b' || first == b'u' || first == b'f'
is_string_prefix (a ∷ b ∷ []) =
    let first = to_lower a in
    let second = to_lower b in
    (first == b'r' && second == b'b')
    || (first == b'b' && second == b'r')
    || (first == b'f' && second == b'r')
    || (first == b'r' && second == b'f')
is_string_prefix (a ∷ b ∷ c ∷ rest) = false

unfoldable pub prefix_contains : Text → ℕ → Bool
prefix_contains [] wanted = false
prefix_contains (c ∷ cs) wanted = to_lower c == wanted || prefix_contains cs wanted
