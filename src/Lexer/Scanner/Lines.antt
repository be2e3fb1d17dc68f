-- ===== src/Lexer/Scanner/Lines.antt =====
-- The start and the end of a line, and a line that continues on the next.
use cythonpp.Prelude.{
  ℕ, ◌≡◌, ◌≢◌, refl, sym, ap, ◌∙◌, true, false, ◌&&◌, ◌||◌, List, [], ◌∷◌, ◌==◌, ltb, length,
  length-append, Bool-cases, inl, inr, arith,
}
use cythonpp.Prelude.Text.{Text, text, text_eq}
use cythonpp.Lexer.TokenType.{newline}
use cythonpp.Lexer.Token.{Token}
use cythonpp.Lexer.Context.{bracket_depth}
use cythonpp.Lexer.Scanner.Cursor.{Cursor, peek, advance, advance_over, advance_while}
use cythonpp.Lexer.Scanner.State.{Scanner, move, emit}
use cythonpp.Lexer.Scanner.Pieces.{
  is_indentation, is_space_or_tab, space_or_tab, is_blank_line, emit_indentation, after_indentation,
  scan_line_start, scan_end_of_line, past_return, scan_line_continuation,
}
use cythonpp.Lexer.Scanner.Tokenize.{is_line_continuation}
use cythonpp.Lexer.Scanner.Reads.{
  Reads, Past, refl-Onward, trans-Onward, trans-Reads, advance-Reads, advance-ahead, peek-ahead,
  peek-advance, advance_over-Onward,
}
use cythonpp.Lexer.Scanner.Weave.{Woven, gap, is_gap, Inv, Scans, MayScan, emit-Scans, skip-Scans}
use cythonpp.Lexer.Scanner.Numbers.{and_both}

emit_indentation-MayScan :
    (source : Text) (t : Text) (s : Scanner)
    → Inv source s
    → s.cursor.ahead ≡ t
    → MayScan source s.cursor (emit_indentation t s)
unfolding emit_indentation
emit_indentation-MayScan source [] s h e = (h, refl-Onward s.cursor)
emit_indentation-MayScan source (c ∷ cs) s h e = elim (Bool-cases (is_space_or_tab c)) [
  | inr other ↦ rw (emit_indentation, other) (h, refl-Onward s.cursor)
  | inl found ↦
      let t = emit (space_or_tab c) (c ∷ []) s.cursor (move (advance s.cursor) s) in
      let one = emit-Scans source (space_or_tab c) s c cs h e in
      let left : t.cursor.ahead ≡ cs = advance-ahead s.cursor c cs e in
      let rest = emit_indentation-MayScan source cs t one.0 left in
      rw (emit_indentation, found)
        (rest.0, trans-Onward s.cursor t.cursor (emit_indentation cs t).cursor one.1.0 rest.1)
]

skip_indentation-Woven :
    (source : Text) (ts : List Token) (t : Text) (k : Cursor)
    → Woven source ts k
    → k.ahead ≡ t
    → Woven source ts (advance_over is_indentation t k)
unfolding advance_over is_gap
skip_indentation-Woven source ts [] k h e = h
skip_indentation-Woven source ts (c ∷ cs) k h e = elim (Bool-cases (is_indentation c)) [
  | inr other ↦ rw (advance_over, other) h
  | inl found ↦
      rw (advance_over, found)
        (skip_indentation-Woven source ts cs (advance k)
          (gap (c ∷ []) (ground (arith, found)) (advance-Reads k c cs e) h)
          (advance-ahead k c cs e))
]

after_indentation-MayScan :
    (source : Text) (s : Scanner) → Inv source s → MayScan source s.cursor (after_indentation s)
after_indentation-MayScan source s h = elim (Bool-cases (is_blank_line s.cursor.ahead)) [
  | inl blank ↦ rw blank (h, refl-Onward s.cursor)
  | inr content ↦ rw content (emit_indentation-MayScan source s.cursor.ahead s h refl)
]

pub scan_line_start-MayScan :
    (source : Text) (s : Scanner) → Inv source s → MayScan source s.cursor (scan_line_start s)
unfolding scan_line_start
scan_line_start-MayScan source s h =
    let t = after_indentation s in
    let emitted = after_indentation-MayScan source s h in
    (
      (
        skip_indentation-Woven source t.tokens t.cursor.ahead t.cursor emitted.0.0 refl,
        emitted.0.1,
      ),
      trans-Onward s.cursor t.cursor (advance_while is_indentation t.cursor) emitted.1
          (advance_over-Onward is_indentation t.cursor.ahead t.cursor refl),
    )

pub scan_line_start-flag : (s : Scanner) → (scan_line_start s).at_line_start ≡ false
unfolding scan_line_start
scan_line_start-flag s = refl

pub scan_end_of_line-Scans :
    (source : Text) (s : Scanner)
    → Inv source s
    → (peek 0 s.cursor == b'\n') ≡ true
    → Scans source s.cursor (scan_end_of_line s)
unfolding scan_end_of_line is_gap emit
scan_end_of_line-Scans source s h found =
    let is : peek 0 s.cursor ≡ b'\n' = ground (arith, found) in
    let seen = peek-ahead s.cursor (λ e. ground (arith, found)) in
    let ahead : s.cursor.ahead ≡ b'\n' ∷ seen.0 = seen.1 ∙ ap (λ x. x ∷ seen.0) is in
    let skipped = skip-Scans source s b'\n' seen.0 h ahead refl in
    let emitted = emit-Scans source newline s b'\n' seen.0 h ahead in
    elim (Bool-cases (ltb 0 (bracket_depth s.context))) [
      | inl inside ↦ rw (scan_end_of_line, inside) skipped
      | inr outside ↦ elim (Bool-cases s.line_has_content) [
        | inl content ↦ rw (scan_end_of_line, outside, content) emitted
        | inr blank ↦ rw (scan_end_of_line, outside, blank) skipped
      ]
    ]

byte-Reads : (k : Cursor) (c : ℕ) → c ≢ 0 → peek 0 k ≡ c → Reads k (c ∷ []) (advance k)
byte-Reads k c nonzero is =
    let seen = peek-ahead k (λ e. nonzero (sym is ∙ e)) in
    advance-Reads k c seen.0 (seen.1 ∙ ap (λ x. x ∷ seen.0) is)

two-Reads :
    (k : Cursor) (c d : ℕ)
    → c ≢ 0
    → d ≢ 0
    → peek 0 k ≡ c
    → peek 1 k ≡ d
    → Reads k (c ∷ d ∷ []) (advance (advance k))
two-Reads k c d c_seen d_seen first second =
    trans-Reads k (advance k) (advance (advance k)) (c ∷ []) (d ∷ []) (byte-Reads k c c_seen first)
      (byte-Reads (advance k) d d_seen (peek-advance 0 k ∙ second))

-- What a line continuation reads.
continuation-Reads :
    (k : Cursor)
    → is_line_continuation k ≡ true
    → (w : Text) × (is_gap w ≡ true) × Reads k w (advance (past_return (advance k)))
unfolding is_gap text_eq
continuation-Reads k h =
    let parts =
      and_both (peek 0 k == b'\\') (peek 1 k == b'\n' || (peek 1 k == b'\r' && peek 2 k == b'\n'))
        h in
    let slash : peek 0 k ≡ b'\\' = ground (arith, parts.0) in
    elim (Bool-cases (peek 0 (advance k) == b'\r')) [
      | inr plain ↦
          let shifted = peek-advance 0 k in
          let second : peek 1 k ≡ b'\n' = ground (arith, parts.1, plain, shifted) in
          rw plain (
            text "\\\n",
            refl,
            two-Reads k b'\\' b'\n' (λ e. omega arith) (λ e. omega arith) slash second,
          )
      | inl return ↦
          let shifted = peek-advance 0 k in
          let second : peek 1 k ≡ b'\r' = ground (arith, return, shifted) in
          let third : peek 2 k ≡ b'\n' = ground (arith, parts.1, second) in
          let k1 = advance k in
          rw return (
            text "\\\r\n",
            refl,
            trans-Reads k (advance k1) (advance (advance k1)) (text "\\\r") (text "\n")
                (two-Reads k b'\\' b'\r' (λ e. omega arith) (λ e. omega arith) slash second)
                (byte-Reads (advance k1) b'\n' (λ e. omega arith)
                  (peek-advance 0 k1 ∙ peek-advance 1 k ∙ third)),
          )
    ]

gap-Past : (k k' : Cursor) (w : Text) → is_gap w ≡ true → Reads k w k' → Past k k'
unfolding is_gap text_eq
gap-Past k k' [] g r = cc
gap-Past k k' (c ∷ w) g r =
    let total = ap length r.0 ∙ length-append (c ∷ w) k'.ahead in ((c ∷ w, r), omega (arith, total))

pub scan_line_continuation-Scans :
    (source : Text) (s : Scanner)
    → Inv source s
    → is_line_continuation s.cursor ≡ true
    → Scans source s.cursor (scan_line_continuation s)
unfolding scan_line_continuation
scan_line_continuation-Scans source s h found =
    let read = continuation-Reads s.cursor found in
    let end = advance (past_return (advance s.cursor)) in
    ((gap read.0 read.1 read.2 h.0, h.1), gap-Past s.cursor end read.0 read.1 read.2)
