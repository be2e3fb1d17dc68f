-- ===== src/Lexer/Scanner/Total.antt =====
-- On enough fuel, tokens and f-strings are scanned: something is read, and all of it is kept.
use cythonpp.Prelude.{
  ℕ, zero, suc, ◌+◌, ◌*◌, ◌≤◌, ◌≡◌, refl, ap, Bool, false, ◌==◌, length, inl, inr, arith,
}
use cythonpp.Prelude.Text.{Text}
use cythonpp.Lexer.TokenType.{fstring_middle}
use cythonpp.Lexer.Context.{bracket_depth}
use cythonpp.Lexer.Scanner.Cursor.{Cursor, peek, advance}
use cythonpp.Lexer.Scanner.State.{Scanner, move, emit_from}
use cythonpp.Lexer.Scanner.Pieces.{scan_comment, scan_string, scan_number, scan_operator}
use cythonpp.Lexer.Scanner.Fstrings.{
  at_end, flush, past_escape, past_part, open_field, open_spec, fstring_step, spec_step, field_step,
  token_kind, scan_token, fstring_loop, field_loop, spec_loop,
}
use cythonpp.Lexer.Scanner.Reads.{
  Onward, refl-Onward, trans-Onward, advance-Past, advance-Past_twice, peek-ahead,
}
use cythonpp.Lexer.Scanner.Weave.{At, Inv, skip-Scans}
use cythonpp.Lexer.Scanner.Numbers.{scan_number-Scans}
use cythonpp.Lexer.Scanner.Strings.{scan_comment-Scans, scan_string-Scans, scan_operator-Scans}
use cythonpp.Lexer.Scanner.Steps.{
  unended, fstring_escape-at_end, fstring_text-at_end, fstring_doubled-peek, fstring_field-peek,
  spec_field-peek, spec_text-at_end, field_blank-peek, field_colon-peek, field_part-at_end,
  field_token-at_end, a_comment-peek, a_string-peek, a_word-peek, a_number-starts_number,
}
use cythonpp.Lexer.Scanner.Chunks.{
  flush-MayScan, flushed_field-Scans, open_spec-Scans, past_escape-Past, part-Scans, past_word-Past,
}
use cythonpp.Lexer.Scanner.Returns.{
  Returns, ReturnsPast, FstringStep-cases, SpecStep-cases, FieldStep-cases, TokenKind-cases,
  on-Returns, word-Returns, field_then, field_blank-gap,
}

mutual
  unfolding scan_token fstring_loop field_loop spec_loop

  pub scan_token-Returns :
      (source : Text) (fuel : ℕ) (s : Scanner)
      → Inv source s
      → at_end s.cursor ≡ false
      → 2 * length s.cursor.ahead ≤ fuel
      → ReturnsPast source s.cursor (scan_token fuel s)
  scan_token-Returns source zero s h more enough =
      let here = unended s.cursor more in absurd (omega (arith, enough, ap length here.2))
  scan_token-Returns source (suc fuel) s h more enough =
      let here = unended s.cursor more in
      elim (TokenKind-cases (token_kind s.cursor)) [
        | inl e ↦
            rw (scan_token, e)
              (scan_comment s, refl, scan_comment-Scans source s h (a_comment-peek s.cursor e))
        | inr (inl e) ↦
            rw (scan_token, e)
              (
                scan_string s.cursor s,
                refl,
                scan_string-Scans source s.cursor s h (refl-Onward s.cursor)
                    (a_string-peek s.cursor e),
              )
        | inr (inr (inl e)) ↦
            rw (scan_token, e)
              (word-Returns source fuel s h (past_word-Past s (a_word-peek s.cursor e))
                (λ quote triple u i less.
                  fstring_loop-Returns source fuel quote triple u.cursor u i (refl-Onward u.cursor)
                    (omega (arith, less, enough))))
        | inr (inr (inr (inl e))) ↦
            rw (scan_token, e)
              (
                scan_number s,
                refl,
                scan_number-Scans source s h (a_number-starts_number s.cursor e),
              )
        | inr (inr (inr (inr e))) ↦
            rw (scan_token, e)
              (scan_operator s, refl, scan_operator-Scans source s here.0 here.1 h here.2)
      ]

  pub fstring_loop-Returns :
      (source : Text) (fuel : ℕ) (quote : ℕ) (triple : Bool) (chunk : Cursor) (s : Scanner)
      → At source chunk s
      → Onward chunk s.cursor
      → 2 * length s.cursor.ahead + 1 ≤ fuel
      → Returns source s.cursor (fstring_loop fuel quote triple chunk s)
  fstring_loop-Returns source zero quote triple chunk s h r enough = absurd (omega arith)
  fstring_loop-Returns source (suc fuel) quote triple chunk s h r enough =
      elim (FstringStep-cases (fstring_step quote triple s.cursor)) [
        | inl e ↦ rw (fstring_loop, e) (flush chunk s, refl, flush-MayScan source chunk s h r)
        | inr (inl e) ↦
            let p = past_escape-Past s.cursor (fstring_escape-at_end quote triple s.cursor e) in
            rw (fstring_loop, e)
              (on-Returns source s.cursor (past_escape s.cursor)
                (fstring_loop fuel quote triple chunk (move (past_escape s.cursor) s)) p
                (fstring_loop-Returns source fuel quote triple chunk (move (past_escape s.cursor) s)
                  h (trans-Onward chunk s.cursor (past_escape s.cursor) r p.0)
                  (omega (arith, p.1, enough))))
        | inr (inr (inl e)) ↦
            let seen = fstring_doubled-peek quote triple s.cursor e in
            let next = advance (advance s.cursor) in
            let p = advance-Past_twice s.cursor seen.0 seen.1 in
            rw (fstring_loop, e)
              (on-Returns source s.cursor next (fstring_loop fuel quote triple chunk (move next s))
                p
                (fstring_loop-Returns source fuel quote triple chunk (move next s) h
                  (trans-Onward chunk s.cursor next r p.0) (omega (arith, p.1, enough))))
        | inr (inr (inr (inl e))) ↦
            let opened = open_field (flush chunk s) in
            let p =
              flushed_field-Scans source chunk s h r (fstring_field-peek quote triple s.cursor e) in
            rw (fstring_loop, e)
              (field_then source s.cursor fuel quote triple opened
                (λ t. fstring_loop fuel quote triple t.cursor t) p
                (field_loop-Returns source fuel quote triple (bracket_depth opened.context) opened
                  p.0 (omega (arith, p.1.1, enough)))
                (λ t i less.
                  fstring_loop-Returns source fuel quote triple t.cursor t i (refl-Onward t.cursor)
                    (omega (arith, less, enough))))
        | inr (inr (inr (inr e))) ↦
            let here = unended s.cursor (fstring_text-at_end quote triple s.cursor e) in
            let p = advance-Past s.cursor here.0 here.1 here.2 in
            rw (fstring_loop, e)
              (on-Returns source s.cursor (advance s.cursor)
                (fstring_loop fuel quote triple chunk (move (advance s.cursor) s)) p
                (fstring_loop-Returns source fuel quote triple chunk (move (advance s.cursor) s) h
                  (trans-Onward chunk s.cursor (advance s.cursor) r p.0)
                  (omega (arith, p.1, enough))))
      ]

  pub field_loop-Returns :
      (source : Text) (fuel : ℕ) (quote : ℕ) (triple : Bool) (depth : ℕ) (s : Scanner)
      → Inv source s
      → 2 * length s.cursor.ahead + 1 ≤ fuel
      → Returns source s.cursor (field_loop fuel quote triple depth s)
  field_loop-Returns source zero quote triple depth s h enough = absurd (omega arith)
  field_loop-Returns source (suc fuel) quote triple depth s h enough =
      let at_depth = bracket_depth s.context == depth in
      elim (FieldStep-cases (field_step at_depth s.cursor)) [
        | inl e ↦ rw (field_loop, e) (s, refl, (h, refl-Onward s.cursor))
        | inr (inl e) ↦
            let is = field_blank-peek at_depth s.cursor e in
            let seen = peek-ahead s.cursor (λ z. ground (arith, is)) in
            let p =
              skip-Scans source s (peek 0 s.cursor) seen.0 h seen.1
                (field_blank-gap (peek 0 s.cursor) is) in
            rw (field_loop, e)
              (on-Returns source s.cursor (advance s.cursor)
                (field_loop fuel quote triple depth (move (advance s.cursor) s)) p.1
                (field_loop-Returns source fuel quote triple depth (move (advance s.cursor) s) p.0
                  (omega (arith, p.1.1, enough))))
        | inr (inr (inl e)) ↦
            let t = open_spec s in
            let p = open_spec-Scans source s h (field_colon-peek at_depth s.cursor e) in
            rw (field_loop, e)
              (on-Returns source s.cursor t.cursor (spec_loop fuel quote triple t.cursor t) p.1 (
                spec_loop-Returns source fuel quote triple t.cursor t p.0 (refl-Onward t.cursor)
                  (omega (arith, p.1.1, enough))))
        | inr (inr (inr (inl e))) ↦
            let t = emit_from fstring_middle s.cursor (move (past_part s.cursor) s) in
            let p = part-Scans source s h (field_part-at_end at_depth s.cursor e) in
            rw (field_loop, e)
              (on-Returns source s.cursor t.cursor (field_loop fuel quote triple depth t) p.1 (
                field_loop-Returns source fuel quote triple depth t p.0
                  (omega (arith, p.1.1, enough))))
        | inr (inr (inr (inr e))) ↦
            let scanned =
              scan_token-Returns source fuel s h (field_token-at_end at_depth s.cursor e)
                (omega (arith, enough)) in
            let t = scanned.0 in
            let rest =
              field_loop-Returns source fuel quote triple depth t scanned.2.0
                (omega (arith, scanned.2.1.1, enough)) in
            rw (field_loop, e, scanned.1)
              (on-Returns source s.cursor t.cursor (field_loop fuel quote triple depth t)
                scanned.2.1 rest)
      ]

  pub spec_loop-Returns :
      (source : Text) (fuel : ℕ) (quote : ℕ) (triple : Bool) (chunk : Cursor) (s : Scanner)
      → At source chunk s
      → Onward chunk s.cursor
      → 2 * length s.cursor.ahead + 1 ≤ fuel
      → Returns source s.cursor (spec_loop fuel quote triple chunk s)
  spec_loop-Returns source zero quote triple chunk s h r enough = absurd (omega arith)
  spec_loop-Returns source (suc fuel) quote triple chunk s h r enough =
      elim (SpecStep-cases (spec_step quote triple s.cursor)) [
        | inl e ↦ rw (spec_loop, e) (flush chunk s, refl, flush-MayScan source chunk s h r)
        | inr (inl e) ↦
            let opened = open_field (flush chunk s) in
            let p =
              flushed_field-Scans source chunk s h r (spec_field-peek quote triple s.cursor e) in
            rw (spec_loop, e)
              (field_then source s.cursor fuel quote triple opened
                (λ t. spec_loop fuel quote triple t.cursor t) p
                (field_loop-Returns source fuel quote triple (bracket_depth opened.context) opened
                  p.0 (omega (arith, p.1.1, enough)))
                (λ t i less.
                  spec_loop-Returns source fuel quote triple t.cursor t i (refl-Onward t.cursor)
                    (omega (arith, less, enough))))
        | inr (inr e) ↦
            let here = unended s.cursor (spec_text-at_end quote triple s.cursor e) in
            let p = advance-Past s.cursor here.0 here.1 here.2 in
            rw (spec_loop, e)
              (on-Returns source s.cursor (advance s.cursor)
                (spec_loop fuel quote triple chunk (move (advance s.cursor) s)) p
                (spec_loop-Returns source fuel quote triple chunk (move (advance s.cursor) s) h
                  (trans-Onward chunk s.cursor (advance s.cursor) r p.0)
                  (omega (arith, p.1, enough))))
      ]
