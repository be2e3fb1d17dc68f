-- ===== src/Lexer/Context.antt =====
-- src/domain/lexer/scan_context.cpp: bracket depth and annotation context, from the types of the
-- significant tokens. A list has the back of the vector at its head.
pub mod Brackets
pub mod Tests
use cythonpp.Prelude.{
  ℕ, zero, suc, Bool, true, false, ◌&&◌, ◌||◌, not, List, [], ◌∷◌, ◌==◌, length, if◌then◌else◌,
}
use cythonpp.Lexer.TokenType.{
  TokenType, keyword_if, keyword_elif, keyword_else, keyword_for, keyword_while, keyword_with,
  keyword_try, keyword_except, keyword_finally, keyword_def, keyword_class, keyword_async,
  open_paren, open_bracket, open_brace, close_paren, close_bracket, close_brace, colon, op_arrow,
  op_assign, comma, keyword_lambda, newline, semicolon,
}

pub record BracketFrame : Type 0 where
  pub opener : TokenType
  pub annotation : Bool

pub record ScanContext : Type 0 where
  pub annotation : Bool
  pub block_header_pending : Bool
  pub line_has_content : Bool
  pub brackets : List BracketFrame
  pub lambda_depths : List ℕ

abbrev pub fresh : ScanContext
fresh = record {
  annotation = false;
  block_header_pending = false;
  line_has_content = false;
  brackets = [];
  lambda_depths = [];
}

pub is_block_keyword : TokenType → Bool
is_block_keyword keyword_if = true
is_block_keyword keyword_elif = true
is_block_keyword keyword_else = true
is_block_keyword keyword_for = true
is_block_keyword keyword_while = true
is_block_keyword keyword_with = true
is_block_keyword keyword_try = true
is_block_keyword keyword_except = true
is_block_keyword keyword_finally = true
is_block_keyword keyword_def = true
is_block_keyword keyword_class = true
is_block_keyword keyword_async = true
is_block_keyword _ = false

-- Which arm of `observe` a token type takes: the two bracket tests, then the labels of the switch.
pub data Arm : Type 0 where
  opens closes on_colon on_arrow on_assign on_comma on_lambda on_line_end on_default : Arm

unfoldable pub arm_of : TokenType → Arm
arm_of open_paren = opens
arm_of open_bracket = opens
arm_of open_brace = opens
arm_of close_paren = closes
arm_of close_bracket = closes
arm_of close_brace = closes
arm_of colon = on_colon
arm_of op_arrow = on_arrow
arm_of op_assign = on_assign
arm_of comma = on_comma
arm_of keyword_lambda = on_lambda
arm_of newline = on_line_end
arm_of semicolon = on_line_end
arm_of _ = on_default

-- A slice or a dict display, rather than parentheses.
is_subscript_or_dict : TokenType → Bool
is_subscript_or_dict open_bracket = true
is_subscript_or_dict open_brace = true
is_subscript_or_dict _ = false

-- The colon that no lambda claims.
plain_colon : List BracketFrame → ScanContext → ScanContext
unfolding is_subscript_or_dict
plain_colon (frame ∷ _) c =
    if is_subscript_or_dict frame.opener then c else record c { annotation = true }
plain_colon [] c =
    if c.block_header_pending
    then record c { block_header_pending = false; annotation = false }
    else record c { annotation = true }

colon_after_lambda : List ℕ → ScanContext → ScanContext
unfolding plain_colon
colon_after_lambda [] c = plain_colon c.brackets c
colon_after_lambda (depth ∷ rest) c =
    if depth == length c.brackets
    then record c { lambda_depths = rest }
    else plain_colon c.brackets c

pub observe_colon : ScanContext → ScanContext
unfolding colon_after_lambda
observe_colon c = colon_after_lambda c.lambda_depths c

pub observe_comma : ScanContext → ScanContext
observe_comma c = elim c.brackets [
  | [] ↦ record c { annotation = false }
  | frame ∷ _ ↦ if frame.annotation then c else record c { annotation = false }
]

pub end_logical_line : ScanContext → ScanContext
end_logical_line c = record c {
  annotation = false;
  block_header_pending = false;
  line_has_content = false;
  lambda_depths = [];
}

-- The first token of a logical line tells whether it is a block header.
pub start_line : ScanContext → TokenType → ScanContext
unfolding is_block_keyword
start_line c type =
    if c.line_has_content
    then c
    else record c { block_header_pending = is_block_keyword type; line_has_content = true }

pub open_frame : ScanContext → TokenType → ScanContext
open_frame c type = record c {
  brackets = record { opener = type; annotation = c.annotation } ∷ c.brackets;
}

pub close_frame : List BracketFrame → ScanContext → ScanContext
close_frame [] c = c
close_frame (frame ∷ rest) c = record c { annotation = frame.annotation; brackets = rest }

pub take_arm : Arm → TokenType → ScanContext → ScanContext
unfolding open_frame close_frame observe_colon observe_comma end_logical_line
take_arm opens type c = open_frame c type
take_arm closes type c = close_frame c.brackets c
take_arm on_colon type c = observe_colon c
take_arm on_arrow type c = record c { annotation = true }
take_arm on_assign type c = record c { annotation = false }
take_arm on_comma type c = observe_comma c
take_arm on_lambda type c = record c { lambda_depths = length c.brackets ∷ c.lambda_depths }
take_arm on_line_end type c = end_logical_line c
take_arm on_default type c = c

unfoldable pub observe : ScanContext → TokenType → ScanContext
unfolding take_arm start_line
observe c type = take_arm (arm_of type) type (start_line c type)

unfoldable pub observe_all : List TokenType → ScanContext → ScanContext
unfolding observe arm_of
observe_all [] c = c
observe_all (t ∷ ts) c = observe_all ts (observe c t)

unfoldable pub in_annotation : ScanContext → Bool
in_annotation c = c.annotation

unfoldable pub bracket_depth : ScanContext → ℕ
bracket_depth c = length c.brackets
