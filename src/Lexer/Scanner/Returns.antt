-- ===== src/Lexer/Scanner/Returns.antt =====
-- What a scan on fuel returns, and the steps that the proof of it takes.
use cythonpp.Prelude.{
  ℕ, ◌<◌, ◌≡◌, refl, Bool, true, [], ◌∷◌, Option, some, length, ◌⊎◌, inl, inr, arith,
}
use cythonpp.Prelude.Text.{Text}
use cythonpp.Lexer.Context.{bracket_depth}
use cythonpp.Lexer.Scanner.Cursor.{Cursor, peek, slice}
use cythonpp.Lexer.Scanner.State.{Scanner}
use cythonpp.Lexer.Scanner.Pieces.{is_triple, scan_string}
use cythonpp.Lexer.Scanner.Fstrings.{
  close_field, close_fstring, open_fstring, past_word, emit_word, FstringStep, fstring_stops,
  fstring_escape, fstring_doubled, fstring_field, fstring_text, SpecStep, spec_stops, spec_field,
  spec_text, FieldStep, field_stops, field_blank, field_colon, field_part, field_token, TokenKind,
  a_comment, a_string, a_word, a_number, an_operator, WordKind, word_kind, fstring_prefix,
  string_prefix, plain_word, fstring_loop, field_loop, ◌then◌, is_field_blank,
}
use cythonpp.Lexer.Scanner.Reads.{Onward, Past, trans-Onward, trans-Past}
use cythonpp.Lexer.Scanner.Weave.{Inv, Scans, MayScan, is_gap}
use cythonpp.Lexer.Scanner.Strings.{scan_string-Scans}
use cythonpp.Lexer.Scanner.Steps.{string_prefix-next, fstring_prefix-next}
use cythonpp.Lexer.Scanner.Chunks.{
  close_field-MayScan, close_fstring-MayScan, open_fstring-Scans, emit_word-Scans,
}

abbrev pub Returns : Text → Cursor → Option Scanner → Type 0
Returns source k r = (s : Scanner) × (r ≡ some s) × MayScan source k s

abbrev pub ReturnsPast : Text → Cursor → Option Scanner → Type 0
ReturnsPast source k r = (s : Scanner) × (r ≡ some s) × Scans source k s

pub FstringStep-cases :
    (x : FstringStep)
    → (x ≡ fstring_stops)
      ⊎ ((x ≡ fstring_escape)
          ⊎ ((x ≡ fstring_doubled) ⊎ ((x ≡ fstring_field) ⊎ (x ≡ fstring_text))))
FstringStep-cases fstring_stops = inl refl
FstringStep-cases fstring_escape = inr (inl refl)
FstringStep-cases fstring_doubled = inr (inr (inl refl))
FstringStep-cases fstring_field = inr (inr (inr (inl refl)))
FstringStep-cases fstring_text = inr (inr (inr (inr refl)))

pub SpecStep-cases : (x : SpecStep) → (x ≡ spec_stops) ⊎ ((x ≡ spec_field) ⊎ (x ≡ spec_text))
SpecStep-cases spec_stops = inl refl
SpecStep-cases spec_field = inr (inl refl)
SpecStep-cases spec_text = inr (inr refl)

pub FieldStep-cases :
    (x : FieldStep)
    → (x ≡ field_stops)
      ⊎ ((x ≡ field_blank) ⊎ ((x ≡ field_colon) ⊎ ((x ≡ field_part) ⊎ (x ≡ field_token))))
FieldStep-cases field_stops = inl refl
FieldStep-cases field_blank = inr (inl refl)
FieldStep-cases field_colon = inr (inr (inl refl))
FieldStep-cases field_part = inr (inr (inr (inl refl)))
FieldStep-cases field_token = inr (inr (inr (inr refl)))

pub TokenKind-cases :
    (x : TokenKind)
    → (x ≡ a_comment) ⊎ ((x ≡ a_string) ⊎ ((x ≡ a_word) ⊎ ((x ≡ a_number) ⊎ (x ≡ an_operator))))
TokenKind-cases a_comment = inl refl
TokenKind-cases a_string = inr (inl refl)
TokenKind-cases a_word = inr (inr (inl refl))
TokenKind-cases a_number = inr (inr (inr (inl refl)))
TokenKind-cases an_operator = inr (inr (inr (inr refl)))

pub WordKind-cases :
    (x : WordKind) → (x ≡ plain_word) ⊎ ((x ≡ string_prefix) ⊎ (x ≡ fstring_prefix))
WordKind-cases plain_word = inl refl
WordKind-cases string_prefix = inr (inl refl)
WordKind-cases fstring_prefix = inr (inr refl)

-- Two scans in a row.
pub then-Returns :
    (source : Text) (k : Cursor) (r : Option Scanner) (f : Scanner → Option Scanner)
    → Returns source k r
    → ((s : Scanner) → Inv source s → Onward k s.cursor → Returns source s.cursor (f s))
    → Returns source k (r then f)
then-Returns source k r f h g =
    let rest = g h.0 h.2.0 h.2.1 in
    rw h.1 (rest.0, rest.1, (rest.2.0, trans-Onward k h.0.cursor rest.0.cursor h.2.1 rest.2.1))

-- A scan after something was read.
pub Past-ReturnsPast :
    (source : Text) (k k' : Cursor) (r : Option Scanner)
    → Past k k'
    → Returns source k' r
    → ReturnsPast source k r
Past-ReturnsPast source k k' r p h = (h.0, h.1, (h.2.0, trans-Past k k' h.0.cursor p h.2.1))

pub on-Returns :
    (source : Text) (k k' : Cursor) (r : Option Scanner)
    → Past k k'
    → Returns source k' r
    → Returns source k r
on-Returns source k k' r p h = (h.0, h.1, (h.2.0, trans-Onward k k' h.0.cursor p.0 h.2.1))

pub word-Returns :
    (source : Text) (fuel : ℕ) (s : Scanner)
    → Inv source s
    → Past s.cursor (past_word s).cursor
    → ((quote : ℕ) (triple : Bool) (u : Scanner)
        → Inv source u
        → length u.cursor.ahead < length s.cursor.ahead
        → Returns source u.cursor (fstring_loop fuel quote triple u.cursor u))
    → ReturnsPast source s.cursor
        (elim (word_kind (slice s.cursor (past_word s).cursor) (peek 0 (past_word s).cursor)) [
          | plain_word ↦ some (emit_word s.cursor (past_word s))
          | string_prefix ↦ some (scan_string s.cursor (past_word s))
          | fstring_prefix ↦
              let t = past_word s in
              let quote = peek 0 t.cursor in
              let triple = is_triple quote t.cursor in
              let u = open_fstring s.cursor t in
              fstring_loop fuel quote triple u.cursor u
              then (λ v. some (close_fstring quote triple v))
        ])
word-Returns source fuel s h read loop =
    let t = past_word s in
    let quote = peek 0 t.cursor in
    let triple = is_triple quote t.cursor in
    let u = open_fstring s.cursor t in
    elim (WordKind-cases (word_kind (slice s.cursor t.cursor) quote)) [
      | inl e ↦ rw e (emit_word s.cursor t, refl, emit_word-Scans source s.cursor t h read)
      | inr (inl e) ↦ rw e (
        scan_string s.cursor t,
        refl,
        scan_string-Scans source s.cursor t h read.0
            (string_prefix-next (slice s.cursor t.cursor) quote e),
      )
      | inr (inr e) ↦
          let seen = fstring_prefix-next (slice s.cursor t.cursor) quote e in
          let starts = open_fstring-Scans source s.cursor t h read seen in
          rw e (
            Past-ReturnsPast source s.cursor u.cursor
              (fstring_loop fuel quote triple u.cursor u
                then (λ v. some (close_fstring quote triple v)))
              starts.1
              (then-Returns source u.cursor (fstring_loop fuel quote triple u.cursor u)
                (λ v. some (close_fstring quote triple v)) (loop quote triple u starts.0 starts.1.1)
                (λ v i on. (
                  close_fstring quote triple v,
                  refl,
                  close_fstring-MayScan source quote triple v seen i,
                ))))
    ]

-- A field, its closing brace, and what follows it.
pub field_then :
    (source : Text) (k : Cursor) (fuel quote : ℕ) (triple : Bool) (opened : Scanner)
    (f : Scanner → Option Scanner)
    → Scans source k opened
    → Returns source opened.cursor
        (field_loop fuel quote triple (bracket_depth opened.context) opened)
    → ((t : Scanner)
        → Inv source t
        → length t.cursor.ahead < length k.ahead
        → Returns source t.cursor (f t))
    → Returns source k (
        field_loop fuel quote triple (bracket_depth opened.context) opened
        then (λ t. f (close_field t)))
field_then source k fuel quote triple opened f p field next =
    let t = field.0 in
    let closed = close_field-MayScan source t field.2.0 in
    let past =
      trans-Past k opened.cursor (close_field t).cursor p.1
        (trans-Onward opened.cursor t.cursor (close_field t).cursor field.2.1 closed.1) in
    rw field.1 (
      on-Returns source k (close_field t).cursor (f (close_field t)) past
        (next (close_field t) closed.0 past.1))

pub field_blank-gap : (c : ℕ) → is_field_blank c ≡ true → is_gap (c ∷ []) ≡ true
unfolding is_gap
field_blank-gap c h = ground (arith, h)
