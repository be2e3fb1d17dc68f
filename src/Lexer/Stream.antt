-- ===== src/Lexer/Stream.antt =====
-- src/domain/lexer/token_stream.cpp: the tokens with a cursor that skips comments.
pub mod Cursor
pub mod Progress
pub mod Tests
use cythonpp.Prelude.{
  ℕ, zero, suc, ◌+◌, ◌-◌, Bool, true, false, ◌||◌, not, Option, none, some, List, [], ◌∷◌, ltb, leb,
  length, get_elem?, if◌then◌else◌,
}
use cythonpp.Lexer.TokenType.{TokenType, same_type, comment_single, token_eof}
use cythonpp.Lexer.Token.{Token}

pub record TokenStream : Type 0 where
  pub tokens : List Token
  pub position : ℕ

abbrev pub has_type : TokenType → Option Token → Bool
has_type type none = false
has_type type (some t) = same_type t.type type

-- The loop of `skip_trivia` from an index, with the turns that are left.
unfoldable pub skip_from : ℕ → List Token → ℕ → ℕ
skip_from zero tokens index = index
skip_from (suc turns) tokens index =
    let rest = skip_from turns tokens (suc index) in
    if has_type comment_single (get_elem? tokens index) then rest else index

-- No more turns than tokens: the index grows at each and `get_elem?` fails past the end.
unfoldable pub skip_trivia : List Token → ℕ → ℕ
unfolding skip_from
skip_trivia tokens index = skip_from (length tokens) tokens index

unfoldable pub make : List Token → TokenStream
make tokens = record { tokens = tokens; position = skip_trivia tokens 0 }

pub size : TokenStream → ℕ
size s = length s.tokens

-- The lookahead loop of `peek`.
pub ahead : ℕ → List Token → ℕ → ℕ
ahead zero tokens index = index
ahead (suc lookahead) tokens index = ahead lookahead tokens (skip_trivia tokens (suc index))

-- `none` stands for the exception that an empty stream throws.
pub peek : TokenStream → ℕ → Option Token
unfolding ahead
peek s lookahead =
    let index = ahead lookahead s.tokens s.position in
    get_elem? s.tokens (if leb (length s.tokens) index then length s.tokens - 1 else index)

pub check : TokenStream → TokenType → Bool
unfolding peek
check s type = has_type type (peek s 0)

unfoldable pub at_end : TokenStream → Bool
at_end s = leb (length s.tokens) s.position || has_type token_eof (get_elem? s.tokens s.position)

unfoldable pub advance : TokenStream → Option Token × TokenStream
unfolding peek at_end
advance s = (
  peek s 0,
  if at_end s then s else record s { position = skip_trivia s.tokens (suc s.position) },
)

unfoldable pub match_ : TokenStream → TokenType → Bool × TokenStream
unfolding check advance
match_ s type = if check s type then (true, (advance s).1) else (false, s)

unfoldable pub seek : TokenStream → ℕ → TokenStream
seek s position = record s {
  position =
      skip_trivia s.tokens (if ltb position (length s.tokens) then position else length s.tokens);
}

pub rewind : TokenStream → TokenStream
unfolding seek
rewind s = seek s 0
