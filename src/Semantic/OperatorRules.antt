-- ===== src/Semantic/OperatorRules.antt =====
-- src/domain/semantic/operator_rules.cpp and rule_result.cpp: the result types of operators,
-- subscripts and iteration.
pub mod Result
pub mod Binary
pub mod Unary
pub mod Elements
pub mod TupleIndex
pub mod Agreement
pub mod Numeric
pub mod Comparison
pub mod Ordering
pub mod Bases
pub mod Tests
