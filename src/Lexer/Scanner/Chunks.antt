-- ===== src/Lexer/Scanner/Chunks.antt =====
-- The parts of an f-string and of a word, each read on from where it starts.
use cythonpp.Prelude.{
  ℕ, ◌≡◌, ◌≢◌, refl, sym, ap, ◌∙◌, Bool, true, false, not, ◌&&◌, [], ◌∷◌, ◌==◌, ltb, if◌then◌else◌,
  length, length-append, Bool-cases, inl, inr, arith,
}
use cythonpp.Prelude.Text.{Text}
use cythonpp.Lexer.TokenType.{
  fstring_start, fstring_middle, fstring_end, open_brace, close_brace, colon, TokenType,
}
use cythonpp.Lexer.Context.{in_annotation}
use cythonpp.Lexer.Keywords.{classify_word}
use cythonpp.Lexer.Scanner.Bytes.{is_identifier_start, is_identifier_continue}
use cythonpp.Lexer.Scanner.Cursor.{Cursor, peek, advance, slice}
use cythonpp.Lexer.Scanner.State.{Scanner, move, emit, emit_from}
use cythonpp.Lexer.Scanner.Pieces.{open_quotes}
use cythonpp.Lexer.Scanner.Fstrings.{
  at_end, flush, past_escape, past_part, open_field, open_spec, close_field, past_quote,
  past_quotes, close_fstring, open_fstring, past_word, emit_word,
}
use cythonpp.Lexer.Scanner.Reads.{
  line_after, column_after, Reads, Onward, Past, refl-Onward, trans-Onward, Onward-Past, trans-Past,
  advance-Past, advance-Past_seen, advance_over-Past, peek-ahead, slice-Reads,
}
use cythonpp.Lexer.Scanner.Weave.{
  At, Inv, Scans, MayScan, emit-Inv, emit_from-Inv, emit_from-Scans, emit-Scans,
}
use cythonpp.Lexer.Scanner.Numbers.{and_both}
use cythonpp.Lexer.Scanner.Strings.{open_quotes-Past}
use cythonpp.Lexer.Scanner.Steps.{unended}

-- Nothing read: the same place.
still-Onward :
    (k k' : Cursor) → Onward k k' → ltb (length k'.ahead) (length k.ahead) ≡ false → k ≡ k'
unfolding line_after column_after
still-Onward k k' h g = go h.0 h.1
  where
    go : (w : Text) → Reads k w k' → k ≡ k'
    go [] r = λ i. record { ahead = r.0 i; line = sym r.1 i; column = sym r.2 i }
    go (c ∷ w) r =
        let more = ap length r.0 ∙ length-append (c ∷ w) k'.ahead in
        absurd (ground (arith, more, g))

pub flush-MayScan :
    (source : Text) (chunk : Cursor) (s : Scanner)
    → At source chunk s
    → Onward chunk s.cursor
    → MayScan source s.cursor (flush chunk s)
unfolding flush emit_from emit
flush-MayScan source chunk s h r =
    elim (Bool-cases (ltb (length s.cursor.ahead) (length chunk.ahead))) [
      | inl more ↦
          rw (flush, more) (emit_from-Inv source fstring_middle chunk s h r, refl-Onward s.cursor)
      | inr still ↦
          rw (flush, still)
            ((rw (sym (still-Onward chunk s.cursor r still)) h.0, h.1), refl-Onward s.cursor)
    ]

-- A byte that a test has found becomes a token of its own.
emit-Scans_seen :
    (source : Text) (type : TokenType) (s : Scanner) (c : ℕ)
    → Inv source s
    → c ≢ 0
    → (peek 0 s.cursor == c) ≡ true
    → Scans source s.cursor (emit type (c ∷ []) s.cursor (move (advance s.cursor) s))
emit-Scans_seen source type s c h nonzero found =
    let is : peek 0 s.cursor ≡ c = ground (arith, found) in
    let seen = peek-ahead s.cursor (λ e. nonzero (sym is ∙ e)) in
    emit-Scans source type s c seen.0 h (seen.1 ∙ ap (λ x. x ∷ seen.0) is)

pub open_field-Scans :
    (source : Text) (s : Scanner)
    → Inv source s
    → (peek 0 s.cursor == b'{') ≡ true
    → Scans source s.cursor (open_field s)
open_field-Scans source s h found =
    emit-Scans_seen source open_brace s b'{' h (λ e. omega arith) found

pub open_spec-Scans :
    (source : Text) (s : Scanner)
    → Inv source s
    → (peek 0 s.cursor == b':') ≡ true
    → Scans source s.cursor (open_spec s)
open_spec-Scans source s h found = emit-Scans_seen source colon s b':' h (λ e. omega arith) found

pub close_field-MayScan :
    (source : Text) (s : Scanner) → Inv source s → MayScan source s.cursor (close_field s)
unfolding close_field
close_field-MayScan source s h = elim (Bool-cases (peek 0 s.cursor == b'}')) [
  | inr other ↦ rw (close_field, other) (h, refl-Onward s.cursor)
  | inl found ↦
      let closed = emit-Scans_seen source close_brace s b'}' h (λ e. omega arith) found in
      rw (close_field, found) (closed.0, closed.1.0)
]

past_quote-Onward : (quote : ℕ) (k : Cursor) → quote ≢ 0 → Onward k (past_quote quote k)
past_quote-Onward quote k nonzero = elim (Bool-cases (peek 0 k == quote)) [
  | inr other ↦ rw other (refl-Onward k)
  | inl found ↦ rw found (advance-Past_seen k (λ e. nonzero (ground (arith, found)))).0
]

past_quotes-Onward :
    (quote : ℕ) (triple : Bool) (k : Cursor) → quote ≢ 0 → Onward k (past_quotes quote triple k)
past_quotes-Onward quote triple k nonzero = elim (Bool-cases (peek 0 k == quote)) [
  | inr other ↦ rw other (refl-Onward k)
  | inl found ↦
      rw found (rest triple (advance-Past_seen k (λ e. nonzero (ground (arith, found)))).0)
]
  where
    rest :
        (b : Bool)
        → Onward k (advance k)
        → Onward k (if b then past_quote quote (past_quote quote (advance k)) else advance k)
    rest false one = one
    rest true one =
        trans-Onward k (advance k) (past_quote quote (past_quote quote (advance k))) one (
          trans-Onward (advance k) (past_quote quote (advance k))
            (past_quote quote (past_quote quote (advance k)))
            (past_quote-Onward quote (advance k) nonzero)
            (past_quote-Onward quote (past_quote quote (advance k)) nonzero))

pub close_fstring-MayScan :
    (source : Text) (quote : ℕ) (triple : Bool) (s : Scanner)
    → quote ≢ 0
    → Inv source s
    → MayScan source s.cursor (close_fstring quote triple s)
unfolding close_fstring emit_from emit
close_fstring-MayScan source quote triple s nonzero h =
    let read = past_quotes-Onward quote triple s.cursor nonzero in
    (
      emit_from-Inv source fstring_end s.cursor (move (past_quotes quote triple s.cursor) s) h read,
      read,
    )

pub open_fstring-Scans :
    (source : Text) (start : Cursor) (s : Scanner)
    → At source start s
    → Past start s.cursor
    → peek 0 s.cursor ≢ 0
    → Scans source start (open_fstring start s)
open_fstring-Scans source start s h r seen =
    emit_from-Scans source fstring_start start (move (open_quotes s.cursor) s) h
      (trans-Past start s.cursor (open_quotes s.cursor) r (open_quotes-Past s.cursor seen).0)

one_or_two :
    (k : Cursor) (stays : Bool)
    → (at_end (advance k) ≡ true → stays ≡ true)
    → at_end k ≡ false
    → Past k (if stays then advance k else advance (advance k))
one_or_two k stays h more =
    let here = unended k more in
    let one = advance-Past k here.0 here.1 here.2 in
    elim (Bool-cases stays) [
      | inl e ↦ rw e one
      | inr e ↦ elim (Bool-cases (at_end (advance k))) [
        | inl last ↦ let same : true ≡ false = sym (h last) ∙ e in cc
        | inr inside ↦
            let next = unended (advance k) inside in
            rw e (
              trans-Past k (advance k) (advance (advance k)) one
                (advance-Past (advance k) next.0 next.1 next.2).0)
      ]
    ]

pub past_escape-Past : (k : Cursor) → at_end k ≡ false → Past k (past_escape k)
past_escape-Past k more = one_or_two k (at_end (advance k)) (λ e. e) more

past_part-Past : (k : Cursor) → at_end k ≡ false → Past k (past_part k)
past_part-Past k more =
    let here = unended k more in
    elim (Bool-cases (peek 0 k == b'!' && not (at_end (advance k)))) [
      | inr e ↦ rw e (advance-Past k here.0 here.1 here.2)
      | inl e ↦
          let two = and_both (peek 0 k == b'!') (not (at_end (advance k))) e in
          rw e
            (one_or_two k false (λ last. let clash : false ≡ true = (rw last at two.1) in cc) more)
    ]

pub part-Scans :
    (source : Text) (s : Scanner)
    → Inv source s
    → at_end s.cursor ≡ false
    → Scans source s.cursor (emit_from fstring_middle s.cursor (move (past_part s.cursor) s))
part-Scans source s h more =
    emit_from-Scans source fstring_middle s.cursor (move (past_part s.cursor) s) h
      (past_part-Past s.cursor more)

pub past_word-Past :
    (s : Scanner)
    → is_identifier_start (peek 0 s.cursor) ≡ true
    → Past s.cursor (past_word s).cursor
past_word-Past s h =
    advance_over-Past is_identifier_continue s.cursor.ahead s.cursor refl (λ e. ground (arith, h))
      (ground (arith, h))

pub emit_word-Scans :
    (source : Text) (start : Cursor) (s : Scanner)
    → At source start s
    → Past start s.cursor
    → Scans source start (emit_word start s)
unfolding emit
emit_word-Scans source start s h r =
    let word = slice start s.cursor in
    let same = slice-Reads start s.cursor r.0.0 r.0.1 in
    (
      emit-Inv source (classify_word word (in_annotation s.context)) word start s h (rw same r.0.1),
      r,
    )

flush-cursor : (chunk : Cursor) (s : Scanner) → (flush chunk s).cursor ≡ s.cursor
unfolding flush emit_from emit
flush-cursor chunk s = elim (Bool-cases (ltb (length s.cursor.ahead) (length chunk.ahead))) [
  | inl more ↦ rw (flush, more) refl
  | inr still ↦ rw (flush, still) refl
]

-- A field after the chunk before it.
pub flushed_field-Scans :
    (source : Text) (chunk : Cursor) (s : Scanner)
    → At source chunk s
    → Onward chunk s.cursor
    → (peek 0 s.cursor == b'{') ≡ true
    → Scans source s.cursor (open_field (flush chunk s))
flushed_field-Scans source chunk s h r found =
    let flushed = flush-MayScan source chunk s h r in
    let scans =
      open_field-Scans source (flush chunk s) flushed.0 (rw (flush-cursor chunk s) found) in
    (
      scans.0,
      Onward-Past s.cursor (flush chunk s).cursor (open_field (flush chunk s)).cursor flushed.1
          scans.1,
    )
