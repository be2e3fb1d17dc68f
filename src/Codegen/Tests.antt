-- ===== src/Codegen/Tests.antt =====
-- Names at concrete identifiers.
use cythonpp.Prelude.{◌≡◌, refl, false, ◌&&◌}
use cythonpp.Prelude.Text.{text}
use cythonpp.Codegen.{all_bytes, is_manglable_identifier, mangle}
use cythonpp.Codegen.Words.{is_ascii, is_scanned_word, is_manglable_identifier-mangle}

is_manglable_identifier-mangle_example :
    (is_manglable_identifier (text "x_1")
      ≡ (is_scanned_word (text "x_1") && all_bytes is_ascii (text "x_1")))
    × (mangle (text "cy_x") ≡ mangle (text "x_1") → text "cy_x" ≡ text "x_1")
is_manglable_identifier-mangle_example = is_manglable_identifier-mangle (text "cy_x") (text "x_1")

digits_first : is_manglable_identifier (text "1x") ≡ false
unfolding is_manglable_identifier
digits_first = refl
