-- ===== src/Lexer.antt =====
-- The lexer's parts, src/domain/lexer/.
pub mod TokenType
pub mod Token
pub mod Indentation
pub mod Stream
pub mod Context
pub mod Keywords
pub mod Operators
pub mod Scanner
