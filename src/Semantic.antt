-- ===== src/Semantic.antt =====
-- The semantic part, src/domain/semantic/: types and their algebra.
pub mod Kind
pub mod PyType
pub mod Builtin
pub mod Subtype
pub mod Join
pub mod Literal
pub mod Scopes
pub mod OperatorRules
pub mod Narrowing
pub mod TypeName
