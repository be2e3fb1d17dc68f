-- ===== src/Lib.antt =====
-- cythonpp compiles a typed subset of Python to C++. The program reads source text (lexer), parses
-- it (parser, ast), types it as mypy does (semantic) and writes C++ (codegen) that runs on a small
-- runtime library. This library models the parts below, each from the code it names; paths are from
-- the repository's root.
--
-- The parts and their files:
--   Runtime/Int.antt: runtime/cythonpp/int_.h. A value is an integer of unbounded size with a tag,
--     `in_int64` is the range of std::int64_t, and `checked` is what the overflow builtins report.
--     `fail` ends the process; here an operation returns the failure (Runtime/Fail.antt).
--     `undefined_operation` stands where C++ gives `/` and `%` no meaning.
--   Diagnostics.antt: src/domain/diagnostics/, the sink with nested suppression. `act` and `act_all`
--     run reports and DiagnosticSuppression scopes.
--   Lexer/TokenType.antt, Token.antt: src/domain/lexer/token_type.h, token_category.h, token.h.
--   Lexer/TokenType/Names.antt: src/domain/lexer/token_type_name.cpp.
--   Lexer/Keywords.antt: src/domain/lexer/keyword_table.cpp; std::lower_bound is what it gives on a
--     sorted range.
--   Lexer/Operators.antt: src/domain/lexer/operator_table.cpp, read in the same way.
--   Lexer/Scanner.antt: src/domain/lexer/lexer.cpp. Scanner/Cursor is the position: an offset in the
--     source is the text from it on, with the line and the column. Scanner/State is the class with
--     emit, Scanner/Pieces the functions for the pieces of a line, Scanner/Fstrings tokens and
--     f-strings, which call each other, and Scanner/Tokenize the main loop. The tests of a loop's
--     body, in their order, give a value (`fstring_step`, `field_step`, `next_step`), and the loop
--     is by cases on it. Scanner/Weave says what it is that a source is woven of its tokens, and
--     Scanner/Positions counts lines and columns without the scanner.
--   Lexer/Indentation.antt: src/domain/lexer/indentation_pass.cpp, the class Builder; it reports to
--     the sink of Diagnostics.antt.
--   Lexer/Stream.antt: src/domain/lexer/token_stream.cpp, the cursor that the parser moves.
--   Lexer/Context.antt: src/domain/lexer/scan_context.cpp, which the scanner feeds with the type of
--     each significant token, and asks for the bracket depth and whether it reads an annotation.
--   Prelude/Text.antt: std::string as bytes.
--   Semantic/Kind.antt, PyType.antt: src/domain/semantic/type_kind.h
--     and type.h with `union_of`.
--   Semantic/Builtin.antt: src/domain/semantic/builtin_type_names.cpp.
--   Semantic/Subtype.antt and its Chain: src/domain/semantic/type_compatibility.cpp, `is_subtype` and
--     the walk of base classes. The early returns of `is_subtype` are the values of `Rule`, in their
--     order (`rule_of`), and `answer` is what each returns. A ClassLookup is a parameter: a record of
--     the three functions of src/domain/semantic/class_lookup.h. Subtype/Rules is the declarative
--     relation, written without the code's order. Subtype/Walk counts what a walk over the names of a
--     table can still visit.
--   Semantic/Join.antt: the same file's `join`, with the order that breaks its ties.
--   Semantic/Subtype/Base.antt: the same file's `builtin_base_of_class`.
--   Semantic/OperatorRules.antt: src/domain/semantic/operator_rules.cpp and rule_result.h; a RuleResult
--     is what its three factories build. OperatorRules/Comparison is the relation for the comparisons.
--   Semantic/Narrowing.antt: src/domain/semantic/narrowing_map.cpp. The paths of a join are visited in
--     the order in which the edges name them, where std::set sorts them: each gets its own entry.
--   Semantic/TypeName.antt: src/domain/semantic/type_name.cpp; the switch over the kind reads the names
--     of the arguments, which the source makes where it needs them.
--   Parser.antt: src/domain/parser/precedence_table.cpp.
--   Codegen.antt: src/domain/codegen/name_mangler.cpp and cpp_type_name.cpp.
--   Semantic/Literal.antt: src/domain/semantic/literal_type.cpp.
--   Semantic/Scopes.antt: src/domain/semantic/scope_stack.cpp. The stack, which is never empty, is its
--     back and the list of the others; a std::map is an association list.
--
-- Vectors that are stacks are lists whose head is the back. Numbers are natural numbers; line and
-- column numbers, counters and sizes of the code do not reach the bounds of their types.
--
-- Fuel: `pow_loop` runs with 64 turns, since an exponent below 2^63 is halved to zero in 63;
-- `skip_trivia` runs at most as many turns as there are tokens. `is_subtype`, the ancestor walk and
-- `join` take fuel and return none where it runs out; without a class table each call is on smaller
-- types, so fuel for the sizes of the two types is enough. With a class table of
-- finitely many names the walk needs one more than the number of all their bases, since it pushes the
-- bases of a name once. The scanner's main loop runs with two rounds for each byte and two more: each
-- round reads a byte but that of a line's start, and the calls inside an f-string read one in every
-- two.
--
-- Not modelled: the rest of the parser, and the tree (src/domain/parser, src/domain/ast), the
-- checker and its tables (type_checker.cpp, expression_typer.cpp, class_table.cpp,
-- annotation_resolver.cpp, literal_guard.cpp and what they use), the rest of the emitter
-- (src/domain/codegen), the rest of the runtime, and the input and output of src/adapters and
-- src/application.
pub mod Prelude
pub mod Runtime
pub mod Diagnostics
pub mod Lexer
pub mod Semantic
pub mod Parser
pub mod Codegen
