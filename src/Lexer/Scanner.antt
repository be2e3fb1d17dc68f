-- ===== src/Lexer/Scanner.antt =====
-- src/domain/lexer/lexer.h and lexer.cpp: the scanner, from the bytes of a source to its tokens.
pub mod Bytes
pub mod Cursor
pub mod State
pub mod Pieces
pub mod Fstrings
pub mod Tokenize
pub mod Reads
pub mod Weave
pub mod Numbers
pub mod Strings
pub mod Steps
pub mod Chunks
pub mod Returns
pub mod Total
pub mod Lines
pub mod Whole
pub mod Positions
pub mod Slices
pub mod Tests
