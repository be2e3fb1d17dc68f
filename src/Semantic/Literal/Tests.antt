-- ===== src/Semantic/Literal/Tests.antt =====
-- Literals at concrete lexemes.
use cythonpp.Prelude.{◌≡◌, refl, true, false, leb, arith}
use cythonpp.Prelude.Text.{text}
use cythonpp.Semantic.Kind.{complex}
use cythonpp.Semantic.PyType.{of_kind}
use cythonpp.Lexer.TokenType.{literal_complex}
use cythonpp.Semantic.Literal.{
  literal_type, integer_literal_fits_64_bits, fits_from, digits_of, base_of, after_prefix, digit_of,
  limit_of,
}
use cythonpp.Semantic.Literal.Bound.{IsNumeral, value_from, integer_literal_fits_64_bits-value}

ff-IsNumeral :
    IsNumeral (base_of (digits_of (text "0xf_f"))) (after_prefix (digits_of (text "0xf_f")))
unfolding digits_of base_of after_prefix digit_of
ff-IsNumeral = ((15, refl, omega arith), ((15, refl, omega arith), tt))

integer_literal_fits_64_bits-value_example :
    integer_literal_fits_64_bits (text "0xf_f") true
    ≡ leb
        (value_from
          (base_of (digits_of (text "0xf_f")))
          0
          (after_prefix (digits_of (text "0xf_f"))))
        (limit_of true)
integer_literal_fits_64_bits-value_example =
    integer_literal_fits_64_bits-value (text "0xf_f") true ff-IsNumeral

two_to_63_fits : integer_literal_fits_64_bits (text "9223372036854775808") true ≡ true
unfolding integer_literal_fits_64_bits fits_from digits_of base_of after_prefix digit_of
two_to_63_fits = refl

two_to_63_is_too_large : integer_literal_fits_64_bits (text "9223372036854775808") false ≡ false
unfolding integer_literal_fits_64_bits fits_from digits_of base_of after_prefix digit_of
two_to_63_is_too_large = refl

complex_literal : literal_type literal_complex ≡ of_kind complex
unfolding literal_type
complex_literal = refl
