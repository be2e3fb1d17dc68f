-- ===== src/Lexer/Scanner/Numbers.antt =====
-- A number is read on from its first byte.
use cythonpp.Prelude.{
  ℕ, ◌≡◌, ◌≢◌, refl, sym, Bool, true, false, ◌&&◌, ◌||◌, ◌==◌, ==_iff, Bool-cases, inl, inr, arith,
}
use cythonpp.Prelude.Text.{Text}
use cythonpp.Lexer.TokenType.{literal_int}
use cythonpp.Lexer.Scanner.Bytes.{is_digit, is_hex_digit, to_lower}
use cythonpp.Lexer.Scanner.Cursor.{Cursor, peek, advance, advance_over}
use cythonpp.Lexer.Scanner.State.{Scanner, move}
use cythonpp.Lexer.Scanner.Pieces.{
  NumberRead, number_read, digits, hex_digits, fraction, exponent, imaginary, has_base,
  starts_exponent, read_number, scan_number,
}
use cythonpp.Lexer.Scanner.Reads.{
  Onward, Past, refl-Onward, trans-Onward, trans-Past, advance-Past_seen, advance-Past_twice,
  advance_over-Onward, advance_over-Past, advance_over-stop,
}
use cythonpp.Lexer.Scanner.Weave.{Inv, Scans, emit_from-Scans}

pub and_both : (a b : Bool) → (a && b) ≡ true → (a ≡ true) × (b ≡ true)
and_both true b h = (refl, h)
and_both false b h = cc

-- A byte that lowers to another than 0 is not 0.
lower_seen : (c d : ℕ) → (to_lower c == d) ≡ true → d ≢ 0 → c ≢ 0
lower_seen c d h nonzero e =
    let clash : (0 == d) ≡ true = (rw e at h) in nonzero (sym ((==_iff 0 d).0 clash))

digits-Onward : (k : Cursor) → Onward k (digits k)
digits-Onward k = advance_over-Onward (λ c. is_digit c || c == b'_') k.ahead k refl

fraction_point : (k : Cursor) → (peek 0 k == b'.') ≡ true → Past k (digits (advance k))
fraction_point k point =
    trans-Past k (advance k) (digits (advance k)) (advance-Past_seen k (λ e. ground arith))
      (digits-Onward (advance k))

fraction-Onward : (k : Cursor) → Onward k (fraction k).cursor
unfolding fraction
fraction-Onward k = elim (Bool-cases (peek 0 k == b'.')) [
  | inr other ↦ rw (fraction, other) (refl-Onward k)
  | inl point ↦ rw (fraction, point) (fraction_point k point).0
]

exponent_seen : (k : Cursor) → starts_exponent k ≡ true → (peek 0 k ≢ 0) × (peek 1 k ≢ 0)
exponent_seen k h =
    let parts =
      and_both (to_lower (peek 0 k) == b'e')
        (is_digit (peek 1 k) || ((peek 1 k == b'+' || peek 1 k == b'-') && is_digit (peek 2 k)))
        h in
    (lower_seen (peek 0 k) b'e' parts.0 (λ e. omega arith), λ e. ground (arith, parts.1))

exponent-Onward : (n : NumberRead) → Onward n.cursor (exponent n).cursor
unfolding exponent
exponent-Onward n = elim (Bool-cases (starts_exponent n.cursor)) [
  | inr other ↦ rw (exponent, other) (refl-Onward n.cursor)
  | inl found ↦
      let seen = exponent_seen n.cursor found in
      rw (exponent, found)
        (trans-Onward n.cursor (advance (advance n.cursor)) (digits (advance (advance n.cursor)))
          (advance-Past_twice n.cursor seen.0 seen.1).0
          (digits-Onward (advance (advance n.cursor))))
]

imaginary-Onward : (n : NumberRead) → Onward n.cursor (imaginary n).cursor
unfolding imaginary
imaginary-Onward n = elim (Bool-cases (to_lower (peek 0 n.cursor) == b'j')) [
  | inr other ↦ rw (imaginary, other) (refl-Onward n.cursor)
  | inl found ↦
      rw (imaginary, found)
        (advance-Past_seen n.cursor (lower_seen (peek 0 n.cursor) b'j' found (λ e. omega arith))).0
]

-- A number starts with a digit, or with a point and a digit.
abbrev pub starts_number : Cursor → Bool
starts_number k = is_digit (peek 0 k) || (peek 0 k == b'.' && is_digit (peek 1 k))

based_seen : (k : Cursor) → has_base k ≡ true → (peek 0 k ≢ 0) × (peek 1 k ≢ 0)
based_seen k h =
    let base = to_lower (peek 1 k) in
    let parts = and_both (peek 0 k == b'0') (base == b'x' || base == b'o' || base == b'b') h in
    (λ e. ground (arith, parts.0), λ e. let clash : false ≡ true = (rw e at parts.1) in cc)

tail-Onward : (n : NumberRead) → Onward n.cursor (imaginary (exponent n)).cursor
tail-Onward n =
    trans-Onward n.cursor (exponent n).cursor (imaginary (exponent n)).cursor (exponent-Onward n)
      (imaginary-Onward (exponent n))

decimal-Past : (k : Cursor) → starts_number k ≡ true → Past k (fraction (digits k)).cursor
unfolding advance_over fraction
decimal-Past k h = elim (Bool-cases (is_digit (peek 0 k))) [
  | inl digit ↦
      trans-Past k (digits k) (fraction (digits k)).cursor
        (advance_over-Past (λ c. is_digit c || c == b'_') k.ahead k refl
          (λ e. ground (arith, digit)) (ground (arith, digit)))
        (fraction-Onward (digits k))
  | inr other ↦
      let parts = and_both (peek 0 k == b'.') (is_digit (peek 1 k)) (rw other at h) in
      let none_read : digits k ≡ k =
        advance_over-stop (λ c. is_digit c || c == b'_') k.ahead k refl
          (ground (arith, parts.0, other)) in
      rw (none_read, fraction, parts.0) (fraction_point k parts.0)
]

pub read_number-Past : (k : Cursor) → starts_number k ≡ true → Past k (read_number k).cursor
unfolding read_number
read_number-Past k h = elim (Bool-cases (has_base k)) [
  | inl based ↦
      let seen = based_seen k based in
      let bases = advance (advance k) in
      let read = number_read (hex_digits bases) literal_int in
      rw (read_number, based)
        (trans-Past k bases (imaginary read).cursor (advance-Past_twice k seen.0 seen.1) (
          trans-Onward bases (hex_digits bases) (imaginary read).cursor
            (advance_over-Onward (λ c. is_hex_digit c || c == b'_') bases.ahead bases refl)
            (imaginary-Onward read)))
  | inr decimal ↦
      rw (read_number, decimal)
        (trans-Past k (fraction (digits k)).cursor
          (imaginary (exponent (fraction (digits k)))).cursor (decimal-Past k h)
          (tail-Onward (fraction (digits k))))
]

pub scan_number-Scans :
    (source : Text) (s : Scanner)
    → Inv source s
    → starts_number s.cursor ≡ true
    → Scans source s.cursor (scan_number s)
unfolding scan_number
scan_number-Scans source s h found =
    let n = read_number s.cursor in
    emit_from-Scans source n.type s.cursor (move n.cursor s) h (read_number-Past s.cursor found)
