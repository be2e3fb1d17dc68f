-- ===== src/Lexer/Scanner/Strings.antt =====
-- A string is read on from its quotes, a comment and an operator from their first byte.
use cythonpp.Prelude.{
  ℕ, ◌≤◌, ◌<◌, ◌≡◌, ◌≢◌, refl, ap, Bool, true, not, ◌&&◌, [], ◌∷◌, ◌++◌, ◌==◌, none, if◌then◌else◌,
  length, Bool-cases, inl, inr, arith,
}
use cythonpp.Prelude.Text.{Text}
use cythonpp.Lexer.TokenType.{literal_string, literal_bytes, token_error, comment_single}
use cythonpp.Lexer.Operators.{longest_operator_at, find_operator, take}
use cythonpp.Lexer.Operators.Longest.{longest_operator_at-longest, longest_operator_at-none}
use cythonpp.Lexer.Scanner.Bytes.{prefix_contains}
use cythonpp.Lexer.Scanner.Cursor.{Cursor, peek, advance, advance_by, advance_while, slice}
use cythonpp.Lexer.Scanner.State.{Scanner, move, token_at, emit, emit_from}
use cythonpp.Lexer.Scanner.Pieces.{
  is_triple, open_quotes, string_body, scan_string, scan_operator, scan_comment,
}
use cythonpp.Lexer.Scanner.Reads.{
  Onward, Past, refl-Onward, trans-Onward, Onward-Past, trans-Past, advance-Past, advance-Past_seen,
  advance-ahead, advance_by-Onward, advance_by-Past, peek-length, slice-Reads, advance-Reads,
  advance_over-Past,
}
use cythonpp.Lexer.Scanner.Weave.{At, Inv, Scans, emit_from-Scans}
use cythonpp.Lexer.Scanner.Numbers.{and_both}

-- Three quotes stand where `is_triple` sees them.
pub triple-length :
    (quote : ℕ) (k : Cursor) → quote ≢ 0 → is_triple quote k ≡ true → 3 ≤ length k.ahead
triple-length quote k nonzero h =
    let parts = and_both (peek 1 k == quote) (peek 2 k == quote) h in
    peek-length 2 k.ahead (λ e. nonzero (ground (arith, parts.1)))

pub open_quotes-Past : (k : Cursor) → peek 0 k ≢ 0 → Past k (open_quotes k)
open_quotes-Past k seen = elim (Bool-cases (is_triple (peek 0 k) k)) [
  | inl triple ↦
      rw triple (advance_by-Past 3 k (λ e. omega arith) (triple-length (peek 0 k) k seen triple))
  | inr single ↦ rw single (advance-Past_seen k seen)
]

pub string_body-Onward :
    (quote : ℕ) (triple : Bool) (t : Text) (k : Cursor)
    → quote ≢ 0
    → k.ahead ≡ t
    → Onward k (string_body quote triple t k)
unfolding string_body
string_body-Onward quote triple [] k seen e = refl-Onward k
string_body-Onward quote triple (c ∷ []) k seen e =
    let one = (advance-Past k c [] e).0 in
    elim (Bool-cases (c == b'\\')) [
      | inl hides ↦ rw (string_body, hides) one
      | inr plain ↦ elim (Bool-cases (not triple && c == b'\n')) [
        | inl line_ends ↦ rw (string_body, plain, line_ends) (refl-Onward k)
        | inr inside ↦ rw (string_body, plain, inside) one
      ]
    ]
string_body-Onward quote triple (c ∷ d ∷ ds) k seen e =
    let one = (advance-Past k c (d ∷ ds) e).0 in
    let left = advance-ahead k c (d ∷ ds) e in
    elim (Bool-cases (c == b'\\')) [
      | inl hides ↦
          let two = (advance-Past (advance k) d ds left).0 in
          let rest = advance-ahead (advance k) d ds left in
          rw (string_body, hides)
            (trans-Onward k (advance (advance k))
              (string_body quote triple ds (advance (advance k)))
              (trans-Onward k (advance k) (advance (advance k)) one two)
              (string_body-Onward quote triple ds (advance (advance k)) seen rest))
      | inr plain ↦ elim (Bool-cases (not triple && c == b'\n')) [
        | inl line_ends ↦ rw (string_body, plain, line_ends) (refl-Onward k)
        | inr inside ↦ elim (Bool-cases (c == quote && not triple)) [
          | inl ends ↦ rw (string_body, plain, inside, ends) one
          | inr unclosed ↦ elim (Bool-cases (c == quote && is_triple quote k)) [
            | inl ends ↦
                let quotes = and_both (c == quote) (is_triple quote k) ends in
                rw (string_body, plain, inside, unclosed, ends)
                  (advance_by-Onward 3 k (triple-length quote k seen quotes.1))
            | inr goes_on ↦
                rw (string_body, plain, inside, unclosed, goes_on)
                  (trans-Onward k (advance k) (string_body quote triple (d ∷ ds) (advance k)) one
                    (string_body-Onward quote triple (d ∷ ds) (advance k) seen left))
          ]
        ]
      ]
    ]

pub scan_string-Scans :
    (source : Text) (start : Cursor) (s : Scanner)
    → At source start s
    → Onward start s.cursor
    → peek 0 s.cursor ≢ 0
    → Scans source start (scan_string start s)
unfolding scan_string
scan_string-Scans source start s h r seen =
    let quote = peek 0 s.cursor in
    let inside = open_quotes s.cursor in
    let end = string_body quote (is_triple quote s.cursor) inside.ahead inside in
    let body = string_body-Onward quote (is_triple quote s.cursor) inside.ahead inside seen refl in
    emit_from-Scans source
      (if prefix_contains (slice start s.cursor) b'b' then literal_bytes else literal_string) start
      (move end s) h
      (Onward-Past start s.cursor end r
        (trans-Past s.cursor inside end (open_quotes-Past s.cursor seen) body))

pub scan_operator-Scans :
    (source : Text) (s : Scanner) (c : ℕ) (cs : Text)
    → Inv source s
    → s.cursor.ahead ≡ c ∷ cs
    → Scans source s.cursor (scan_operator s)
unfolding scan_operator
scan_operator-Scans source s c cs h e =
    let match = longest_operator_at s.cursor.ahead in
    elim (Bool-cases (match.length == 0)) [
      | inl bad ↦
          rw (scan_operator, bad)
            (emit_from-Scans source token_error s.cursor (move (advance s.cursor) s) h
              (advance-Past s.cursor c cs e))
      | inr good ↦
          rw (scan_operator, good)
            (emit_from-Scans source match.type s.cursor (move (advance_by match.length s.cursor) s)
              h
              (advance_by-Past match.length s.cursor (λ z. ground (arith, good))
                (longest_operator_at-longest s.cursor.ahead).0))
    ]

pub scan_comment-Scans :
    (source : Text) (s : Scanner)
    → Inv source s
    → (peek 0 s.cursor == b'#') ≡ true
    → Scans source s.cursor (scan_comment s)
unfolding scan_comment
scan_comment-Scans source s h hash =
    let test = λ (c : ℕ). not (c == b'\n') && not (c == b'\r') in
    emit_from-Scans source comment_single s.cursor (move (advance_while test s.cursor) s) h (
      advance_over-Past test s.cursor.ahead s.cursor refl (λ e. ground (arith, hash))
        (ground (arith, hash)))

-- A byte that starts no operator becomes one error token, which is that byte, and scanning goes on
-- after it.
pub scan_operator-token_error :
    (s : Scanner) (c : ℕ) (cs : Text)
    → s.cursor.ahead ≡ c ∷ cs
    → ((k : ℕ) → 0 < k → k ≤ length s.cursor.ahead → find_operator (take k s.cursor.ahead) ≡ none)
    → ((scan_operator s).tokens
        ≡ s.tokens ++ (token_at token_error (c ∷ []) s.cursor (advance s.cursor) ∷ []))
      × ((scan_operator s).cursor.ahead ≡ cs)
unfolding scan_operator emit_from emit
scan_operator-token_error s c cs e h =
    let unmatched = longest_operator_at-none s.cursor.ahead h in
    let read = slice-Reads s.cursor (advance s.cursor) (c ∷ []) (advance-Reads s.cursor c cs e) in
    rw (scan_operator, unmatched)
      (
        ap (λ w. s.tokens ++ (token_at token_error w s.cursor (advance s.cursor) ∷ [])) read,
        advance-ahead s.cursor c cs e,
      )
