-- ===== src/Lexer/Stream/Cursor.antt =====
-- The cursor of a token stream: where it stands after each operation, and that it moves.
use cythonpp.Prelude.{
  ℕ, zero, suc, ◌+◌, ◌≤◌, ◌<◌, ◌≡◌, refl, Bool, true, false, none, List, [], ◌∷◌, arith, ltb,
  length, get_elem?, Bool-cases, inl, inr,
}
use cythonpp.Lexer.TokenType.{TokenType, comment_single}
use cythonpp.Lexer.Token.{Token}
use cythonpp.Lexer.Stream.{
  TokenStream, has_type, skip_from, skip_trivia, make, check, at_end, advance, match_, seek, rewind,
}

abbrev pub on_comment : List Token → ℕ → Bool
on_comment tokens index = has_type comment_single (get_elem? tokens index)

past_end : (tokens : List Token) (index : ℕ) → length tokens ≤ index → get_elem? tokens index ≡ none
past_end [] index h = refl
past_end (t ∷ ts) zero h = absurd (omega arith)
past_end (t ∷ ts) (suc index) h = past_end ts index (omega arith)

not_comment_past_end :
    (tokens : List Token) (index : ℕ) → length tokens ≤ index → on_comment tokens index ≡ false
not_comment_past_end tokens index h = rw (past_end tokens index h)

-- Skipping stops on a token that is no comment, or at the end, and goes back nowhere.
pub skip_from-on_comment :
    (turns : ℕ) (tokens : List Token) (index : ℕ)
    → length tokens ≤ turns + index
    → on_comment tokens (skip_from turns tokens index) ≡ false
unfolding skip_from
skip_from-on_comment zero tokens index h = not_comment_past_end tokens index (omega arith)
skip_from-on_comment (suc turns) tokens index h = elim (Bool-cases (on_comment tokens index)) [
  | inl comment ↦ rw comment (skip_from-on_comment turns tokens (suc index) (omega arith))
  | inr other ↦ rw other other
]

pub le-skip_from :
    (turns : ℕ) (tokens : List Token) (index : ℕ) → index ≤ skip_from turns tokens index
unfolding skip_from
le-skip_from zero tokens index = omega arith
le-skip_from (suc turns) tokens index = ground (arith, le-skip_from turns tokens (suc index))

pub comment_within :
    (tokens : List Token) (index : ℕ) → on_comment tokens index ≡ true → index < length tokens
comment_within tokens index h = elim (Bool-cases (ltb index (length tokens))) [
  | inl within ↦ ground arith
  | inr past ↦ absurd (ground (arith, not_comment_past_end tokens index))
]

skip_from-le-length :
    (turns : ℕ) (tokens : List Token) (index : ℕ)
    → index ≤ length tokens
    → skip_from turns tokens index ≤ length tokens
unfolding skip_from
skip_from-le-length zero tokens index h = h
skip_from-le-length (suc turns) tokens index h = elim (Bool-cases (on_comment tokens index)) [
  | inl comment ↦
      rw comment
        (skip_from-le-length turns tokens (suc index) (comment_within tokens index comment))
  | inr other ↦ rw other h
]

pub skip_from_self :
    (turns : ℕ) (tokens : List Token) (index : ℕ)
    → on_comment tokens index ≡ false
    → skip_from turns tokens index ≡ index
unfolding skip_from
skip_from_self zero tokens index h = refl
skip_from_self (suc turns) tokens index h = rw h

-- The cursor is within the stream or at its end, and never on a comment.
pub record IsAligned (s : TokenStream) : Type 0 where
  pub within : s.position ≤ length s.tokens
  pub visible : on_comment s.tokens s.position ≡ false

pub skip_trivia-IsAligned :
    (tokens : List Token) (index : ℕ)
    → index ≤ length tokens
    → IsAligned (record { tokens = tokens; position = skip_trivia tokens index })
unfolding skip_trivia
skip_trivia-IsAligned tokens index h = record {
  within = skip_from-le-length (length tokens) tokens index h;
  visible = skip_from-on_comment (length tokens) tokens index (omega arith);
}

pub not_at_end : (s : TokenStream) → at_end s ≡ false → s.position < length s.tokens
unfolding at_end
not_at_end s h = ground arith

pub make-IsAligned : (tokens : List Token) → IsAligned (make tokens)
unfolding make
make-IsAligned tokens = skip_trivia-IsAligned tokens 0 (omega arith)

pub advance-IsAligned : (s : TokenStream) → IsAligned s → IsAligned (advance s).1
unfolding advance
advance-IsAligned s a = elim (Bool-cases (at_end s)) [
  | inl ended ↦ rw ended a
  | inr more ↦ rw more (skip_trivia-IsAligned s.tokens (suc s.position) (not_at_end s more))
]

pub match_-IsAligned :
    (s : TokenStream) (type : TokenType) → IsAligned s → IsAligned (match_ s type).1
unfolding match_
match_-IsAligned s type a = elim (Bool-cases (check s type)) [
  | inl found ↦ rw found (advance-IsAligned s a)
  | inr missing ↦ rw missing a
]

pub seek-IsAligned : (s : TokenStream) (p : ℕ) → IsAligned (seek s p)
unfolding seek
seek-IsAligned s p = skip_trivia-IsAligned s.tokens _ (ground arith)

-- What the parser does with a stream.
pub data Move : Type 0 where
  advances rewinds : Move
  matches : TokenType → Move
  seeks : ℕ → Move

pub move : Move → TokenStream → TokenStream
unfolding rewind
move advances s = (advance s).1
move rewinds s = rewind s
move (matches type) s = (match_ s type).1
move (seeks p) s = seek s p

pub moves : List Move → TokenStream → TokenStream
moves [] s = s
moves (m ∷ ms) s = moves ms (move m s)

move-IsAligned : (m : Move) (s : TokenStream) → IsAligned s → IsAligned (move m s)
unfolding move
move-IsAligned advances s a = advance-IsAligned s a
move-IsAligned rewinds s a = seek-IsAligned s 0
move-IsAligned (matches type) s a = match_-IsAligned s type a
move-IsAligned (seeks p) s a = seek-IsAligned s p

-- Whatever the parser does with a new stream, the cursor stays within it and off the comments.
pub moves-IsAligned : (ms : List Move) (tokens : List Token) → IsAligned (moves ms (make tokens))
unfolding moves
moves-IsAligned ms tokens = go ms (make tokens) (make-IsAligned tokens)
  where
    go : (ms : List Move) (s : TokenStream) → IsAligned s → IsAligned (moves ms s)
    go [] s a = a
    go (m ∷ ms) s a = go ms (move m s) (move-IsAligned m s a)
