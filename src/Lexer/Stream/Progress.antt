-- ===== src/Lexer/Stream/Progress.antt =====
-- Reading, backtracking and the end of a token stream.
use cythonpp.Prelude.{
  ℕ, zero, suc, ◌+◌, ◌-◌, ◌≤◌, ◌<◌, ◌≡◌, ap, ◌∙◌, true, false, List, arith, ltb, leb, length,
  if◌then◌else◌, Bool-cases, inl, inr,
}
use cythonpp.Lexer.TokenType.{comment_single}
use cythonpp.Lexer.Token.{Token}
use cythonpp.Lexer.Stream.{
  TokenStream, has_type, skip_from, skip_trivia, ahead, peek, at_end, advance, seek,
}
use cythonpp.Lexer.Stream.Cursor.{
  on_comment, IsAligned, skip_from_self, le-skip_from, advance-IsAligned, skip_from-on_comment,
}

clamp : (p n : ℕ) → p ≤ n → (if ltb p n then p else n) ≡ p
clamp p n h = ground arith

-- The parser backtracks by `seek` to a position it took before: that restores the stream, whatever
-- was read in between.
pub seek-position :
    (s : TokenStream) (p : ℕ) → IsAligned s → seek (record s { position = p }) s.position ≡ s
unfolding seek skip_trivia
seek-position s p a = λ i. record s { position = same i }
  where
    same :
        skip_from
          (length s.tokens)
          s.tokens
          (if ltb s.position (length s.tokens) then s.position else length s.tokens)
        ≡ s.position
    same =
        ap (skip_from (length s.tokens) s.tokens) (clamp s.position (length s.tokens) a.within)
        ∙ skip_from_self (length s.tokens) s.tokens s.position a.visible

advance-position : (s : TokenStream) → at_end s ≡ false → s.position < (advance s).1.position
unfolding advance skip_trivia
advance-position s h = rw h (le-skip_from (length s.tokens) s.tokens (suc s.position))

-- `count` calls of `advance`.
pub advance_times : ℕ → TokenStream → TokenStream
advance_times zero s = s
advance_times (suc count) s = advance_times count (advance s).1

tokens-advance : (s : TokenStream) → (advance s).1.tokens ≡ s.tokens
unfolding advance
tokens-advance s = ground arith

advance-at_end : (s : TokenStream) → at_end s ≡ true → (advance s).1 ≡ s
unfolding advance
advance-at_end s h = rw h

advance_times_ended :
    (count : ℕ) (s : TokenStream) → at_end s ≡ true → at_end (advance_times count s) ≡ true
unfolding advance_times
advance_times_ended zero s h = h
advance_times_ended (suc count) s h =
    advance_times_ended count (advance s).1 (rw (advance-at_end s h) h)

at_length : (s : TokenStream) → length s.tokens ≤ s.position → at_end s ≡ true
unfolding at_end
at_length s h = ground arith

-- As many advances as there are tokens left bring the stream to its end, so a loop that advances at
-- each turn ends.
pub advance_times-at_end :
    (count : ℕ) (s : TokenStream)
    → IsAligned s
    → length s.tokens ≤ count + s.position
    → at_end (advance_times count s) ≡ true
unfolding advance_times
advance_times-at_end zero s a h = at_length s (omega arith)
advance_times-at_end (suc count) s a h = elim (Bool-cases (at_end s)) [
  | inl ended ↦ advance_times_ended (suc count) s ended
  | inr more ↦
      advance_times-at_end count (advance s).1 (advance-IsAligned s a)
        (rw tokens-advance (omega (arith, advance-position s more)))
]

ahead-visible :
    (k : ℕ) (tokens : List Token) (index : ℕ)
    → on_comment tokens index ≡ false
    → on_comment tokens (ahead k tokens index) ≡ false
unfolding ahead skip_trivia
ahead-visible zero tokens index h = h
ahead-visible (suc k) tokens index h =
    ahead-visible k tokens _ (skip_from-on_comment (length tokens) tokens (suc index) (omega arith))

-- `peek` at any distance never shows a comment, where the last token is none, as the scanner's
-- end-of-file token is.
pub peek-visible :
    (s : TokenStream) (k : ℕ)
    → IsAligned s
    → on_comment s.tokens (length s.tokens - 1) ≡ false
    → has_type comment_single (peek s k) ≡ false
unfolding peek
peek-visible s k a h = elim (Bool-cases (leb (length s.tokens) (ahead k s.tokens s.position))) [
  | inl past ↦ rw past h
  | inr inside ↦ rw inside (ahead-visible k s.tokens s.position a.visible)
]
