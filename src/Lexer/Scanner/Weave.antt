-- ===== src/Lexer/Scanner/Weave.antt =====
-- A source is woven of its tokens and the whitespace between them, and the scanner's context is what
-- its significant tokens made of it.
use cythonpp.Prelude.{
  ℕ, ◌≡◌, refl, Bool, true, ◌||◌, List, [], ◌∷◌, ◌++◌, ◌==◌, if◌then◌else◌, Bool-cases, inl, inr,
}
use cythonpp.Prelude.Text.{Text, text, text_eq}
use cythonpp.Lexer.TokenType.{TokenType}
use cythonpp.Lexer.Token.{Token}
use cythonpp.Lexer.Context.{ScanContext, fresh, observe, observe_all}
use cythonpp.Lexer.Scanner.Cursor.{Cursor, start_of, advance}
use cythonpp.Lexer.Scanner.State.{Scanner, move, reset, significant, token_at, emit, emit_from}
use cythonpp.Lexer.Scanner.Reads.{Reads, Onward, Past, slice-Reads, advance-Reads, advance-Past}

-- Whitespace of one byte, or a line continuation.
unfoldable pub is_gap : Text → Bool
unfolding text_eq
is_gap (c ∷ []) = c == b' ' || c == b'\t' || c == b'\r' || c == 12 || c == b'\n'
is_gap w = text_eq w (text "\\\n") || text_eq w (text "\\\r\n")

-- The tokens, in order, of the source before a cursor.
pub data Woven (source : Text) : List Token → Cursor → Type 0 where
  begin : Woven source [] (start_of source)
  gap :
      {ts : List Token} {k k' : Cursor} (w : Text)
      → is_gap w ≡ true
      → Reads k w k'
      → Woven source ts k
      → Woven source ts k'
  token :
      {ts : List Token} {k k' : Cursor} (type : TokenType) (w : Text)
      → Reads k w k'
      → Woven source ts k
      → Woven source (ts ++ (token_at type w k k' ∷ [])) k'

-- The types that the context is told of.
unfoldable pub significant_types : List Token → List TokenType
unfolding significant
significant_types [] = []
significant_types (t ∷ ts) =
    let later = significant_types ts in if significant t.type then t.type ∷ later else later

-- All of the source before a cursor is in the tokens of a state.
abbrev pub At : Text → Cursor → Scanner → Type 0
At source k s =
    Woven source s.tokens k × (s.context ≡ observe_all (significant_types s.tokens) fresh)

abbrev pub Inv : Text → Scanner → Type 0
Inv source s = At source s.cursor s

abbrev pub Scans : Text → Cursor → Scanner → Type 0
Scans source k s = Inv source s × Past k s.cursor

abbrev pub MayScan : Text → Cursor → Scanner → Type 0
MayScan source k s = Inv source s × Onward k s.cursor

observe_all-snoc :
    (ts : List TokenType) (t : TokenType) (c : ScanContext)
    → observe_all (ts ++ (t ∷ [])) c ≡ observe (observe_all ts c) t
unfolding observe_all
observe_all-snoc [] t c = refl
observe_all-snoc (u ∷ ts) t c = observe_all-snoc ts t (observe c u)

significant_types-snoc :
    (ts : List Token) (t : Token)
    → significant_types (ts ++ (t ∷ []))
      ≡ (if significant t.type then significant_types ts ++ (t.type ∷ []) else significant_types ts)
unfolding significant_types
significant_types-snoc [] t = refl
significant_types-snoc (u ∷ ts) t = elim (Bool-cases (significant u.type)) [
  | inr u_untold ↦ rw (u_untold) (significant_types-snoc ts t)
  | inl u_told ↦ elim (Bool-cases (significant t.type)) [
    | inl told ↦ rw (u_told, significant_types-snoc ts t, told) refl
    | inr untold ↦ rw (u_told, significant_types-snoc ts t, untold) refl
  ]
]

pub reset-Inv : (source : Text) → Inv source (reset source)
unfolding observe_all significant_types
reset-Inv source = (begin, refl)

context-emit :
    (ts : List Token) (t : Token) (c : ScanContext)
    → c ≡ observe_all (significant_types ts) fresh
    → (if significant t.type then observe c t.type else c)
      ≡ observe_all (significant_types (ts ++ (t ∷ []))) fresh
context-emit ts t c h = elim (Bool-cases (significant t.type)) [
  | inl told ↦
      rw
        (
          told,
          significant_types-snoc ts t,
          told,
          observe_all-snoc (significant_types ts) t.type fresh,
          h,
        )
        refl
  | inr untold ↦ rw (untold, significant_types-snoc ts t, untold, h) refl
]

pub emit-Inv :
    (source : Text) (type : TokenType) (w : Text) (start : Cursor) (s : Scanner)
    → At source start s
    → Reads start w s.cursor
    → Inv source (emit type w start s)
unfolding emit
emit-Inv source type w start s h r =
    (token type w r h.0, context-emit s.tokens (token_at type w start s.cursor) s.context h.1)

pub emit_from-Inv :
    (source : Text) (type : TokenType) (start : Cursor) (s : Scanner)
    → At source start s
    → Onward start s.cursor
    → Inv source (emit_from type start s)
unfolding emit_from
emit_from-Inv source type start s h r =
    rw (slice-Reads start s.cursor r.0 r.1) (emit-Inv source type r.0 start s h r.1)

pub emit_from-Scans :
    (source : Text) (type : TokenType) (start : Cursor) (s : Scanner)
    → At source start s
    → Past start s.cursor
    → Scans source start (emit_from type start s)
unfolding emit_from emit
emit_from-Scans source type start s h r = (emit_from-Inv source type start s h r.0, r)

-- One byte of whitespace is skipped.
pub skip-Scans :
    (source : Text) (s : Scanner) (c : ℕ) (cs : Text)
    → Inv source s
    → s.cursor.ahead ≡ c ∷ cs
    → is_gap (c ∷ []) ≡ true
    → Scans source s.cursor (move (advance s.cursor) s)
skip-Scans source s c cs h e g =
    ((gap (c ∷ []) g (advance-Reads s.cursor c cs e) h.0, h.1), advance-Past s.cursor c cs e)

-- One byte becomes a token.
pub emit-Scans :
    (source : Text) (type : TokenType) (s : Scanner) (c : ℕ) (cs : Text)
    → Inv source s
    → s.cursor.ahead ≡ c ∷ cs
    → Scans source s.cursor (emit type (c ∷ []) s.cursor (move (advance s.cursor) s))
unfolding emit
emit-Scans source type s c cs h e = (
  emit-Inv source type (c ∷ []) s.cursor (move (advance s.cursor) s) h
      (advance-Reads s.cursor c cs e),
  advance-Past s.cursor c cs e,
)
