-- ===== src/Lexer/Indentation/Balance.antt =====
-- The INDENT and DEDENT tokens of the indentation pass open and close blocks.
use cythonpp.Prelude.{
  ℕ, zero, suc, ◌≡◌, refl, ap, ◌∙◌, Bool, true, false, Option, none, some, List, [], ◌∷◌, ◌++◌,
  arith, ltb, leb, ◌==◌, length, All, if◌then◌else◌, Bool-cases, Option-cases, inl, inr,
}
use cythonpp.Diagnostics.{Sink}
use cythonpp.Lexer.TokenType.{TokenType, indent, dedent}
use cythonpp.Lexer.Token.{Token}
use cythonpp.Lexer.Indentation.{
  Builder, IndentLevel, initial, push_out, emit, dedent_to, flush_levels, flush, same_level, deeper,
  shallower, close_line, step, run_tokens, run_builder, Label, on_space, on_tab, on_comment,
  on_newline, on_eof, on_default, label_of, synthesized, report_tab_error, report_indentation_error,
  replace_back, back, last_or, no_token,
}

-- What a token does to the number of open blocks.
pub data Bracket : Type 0 where
  opening closing neither : Bracket

unfoldable pub bracket_of : TokenType → Bracket
bracket_of indent = opening
bracket_of dedent = closing
bracket_of _ = neither

-- The number of open blocks after a token, or none where a DEDENT closes no block.
abbrev pub nest : Bracket → ℕ → Option ℕ
nest opening d = some (suc d)
nest closing zero = none
nest closing (suc d) = some d
nest neither d = some d

abbrev pub and_then : Option ℕ → (ℕ → Option ℕ) → Option ℕ
and_then none f = none
and_then (some d) f = f d

-- The number of blocks open after the tokens, from the number open before them.
pub nesting : ℕ → List Token → Option ℕ
nesting d [] = some d
nesting d (t ∷ ts) = and_then (nest (bracket_of t.type) d) (λ e. nesting e ts)

nesting-append :
    (d e : ℕ) (xs : List Token) (t : Token)
    → nesting d xs ≡ some e
    → nesting d (xs ++ t ∷ []) ≡ nest (bracket_of t.type) e
unfolding nesting
nesting-append d e [] t h = elim (Option-cases (nest (bracket_of t.type) e)) [
  | inl bad ↦ let same : d ≡ e = cc in rw (same, bad)
  | inr (k, good) ↦ let same : d ≡ e = cc in rw (same, good)
]
nesting-append d e (x ∷ xs) t h = elim (Option-cases (nest (bracket_of x.type) d)) [
  | inl bad ↦ absurd (ground (arith, bad))
  | inr (k, good) ↦ rw good (nesting-append k e xs t (rw good at h))
]

-- As many blocks are open as there are levels above the sentinel.
pub record IsNested (b : Builder) : Type 0 where
  pub depth : ℕ
  pub nested : nesting 0 b.out ≡ some depth
  pub levels : length b.levels ≡ suc depth

-- Output tokens that are no INDENT or DEDENT change nothing.
push_out-nested :
    (b : Builder) (t : Token) (d : ℕ)
    → bracket_of t.type ≡ neither
    → nesting 0 b.out ≡ some d
    → nesting 0 (push_out b t).out ≡ some d
unfolding push_out
push_out-nested b t d h n = nesting-append 0 d b.out t n ∙ ap (λ k. nest k d) h

emit-dedent :
    (b : Builder) (at : Token) (d : ℕ)
    → nesting 0 b.out ≡ some (suc d)
    → nesting 0 (emit b dedent at).out ≡ some d
unfolding emit bracket_of
emit-dedent b at d n = nesting-append 0 (suc d) b.out (synthesized dedent at) n

emit-indent :
    (b : Builder) (at : Token) (d : ℕ)
    → nesting 0 b.out ≡ some d
    → nesting 0 (emit b indent at).out ≡ some (suc d)
unfolding emit bracket_of
emit-indent b at d n = nesting-append 0 d b.out (synthesized indent at) n

dedent_to-IsNested :
    (col : ℕ) (next : Token) (ls : List IndentLevel) (b : Builder) (d : ℕ)
    → nesting 0 b.out ≡ some d
    → length ls ≡ suc d
    → IsNested (dedent_to col next ls b)
unfolding dedent_to
dedent_to-IsNested col next [] b d n h = absurd (omega arith)
dedent_to-IsNested col next (l ∷ []) b d n h = record { depth = d; nested = n; levels = h }
dedent_to-IsNested col next (l ∷ m ∷ ls) b zero n h = absurd (omega arith)
dedent_to-IsNested col next (l ∷ m ∷ ls) b (suc d) n h = elim (Bool-cases (ltb col l.col)) [
  | inl out ↦ rw out (
      dedent_to-IsNested col next (m ∷ ls) (emit b dedent next) d (emit-dedent b next d n)
        (omega arith))
  | inr stays ↦ rw stays (record { depth = suc d; nested = n; levels = h })
]

flush_levels-closed :
    (at : Token) (ls : List IndentLevel) (b : Builder) (d : ℕ)
    → nesting 0 b.out ≡ some d
    → length ls ≡ suc d
    → (nesting 0 (flush_levels at ls b).out ≡ some 0) × (length (flush_levels at ls b).levels ≡ 1)
unfolding flush_levels
flush_levels-closed at [] b d n h = absurd (omega arith)
flush_levels-closed at (l ∷ []) b d n h = (n ∙ ap some (omega arith), refl)
flush_levels-closed at (l ∷ m ∷ ls) b zero n h = absurd (omega arith)
flush_levels-closed at (l ∷ m ∷ ls) b (suc d) n h =
    flush_levels-closed at (m ∷ ls) (emit b dedent at) d (emit-dedent b at d n) (omega arith)

same_level-IsNested :
    (b : Builder) (line : IndentLevel) (t : Token) → IsNested b → IsNested (same_level b line t)
unfolding same_level
same_level-IsNested b line t v = elim (Bool-cases (line.alt_col == (back b.levels).alt_col)) [
  | inl same ↦ rw same v
  | inr differs ↦ rw differs (record { depth = v.depth; nested = v.nested; levels = v.levels })
]

push_level-IsNested :
    (b : Builder) (line : IndentLevel) (t : Token)
    → IsNested b
    → IsNested (emit (record b { levels = line ∷ b.levels }) indent t)
unfolding emit
push_level-IsNested b line t v = record {
  depth = suc v.depth;
  nested = emit-indent b t v.depth v.nested;
  levels = ap suc v.levels;
}

deeper-IsNested :
    (b : Builder) (line : IndentLevel) (t : Token) → IsNested b → IsNested (deeper b line t)
unfolding deeper
deeper-IsNested b line t v = push_level-IsNested checked line t checked_nested
  where
    checked : Builder
    checked = if leb line.alt_col (back b.levels).alt_col then report_tab_error b t else b

    checked_nested : IsNested checked
    checked_nested = elim (Bool-cases (leb line.alt_col (back b.levels).alt_col)) [
      | inl bad ↦ rw bad (record { depth = v.depth; nested = v.nested; levels = v.levels })
      | inr fine ↦ rw fine v
    ]

length-replace_back :
    (ls : List IndentLevel) (line : IndentLevel) → length (replace_back ls line) ≡ length ls
length-replace_back [] line = refl
length-replace_back (l ∷ []) line = refl
length-replace_back (l ∷ m ∷ ls) line = refl

replace_back-IsNested :
    (b : Builder) (line : IndentLevel)
    → IsNested b
    → IsNested (record b { levels = replace_back b.levels line })
replace_back-IsNested b line v = record {
  depth = v.depth;
  nested = v.nested;
  levels = length-replace_back b.levels line ∙ v.levels;
}

shallower-IsNested :
    (b : Builder) (line : IndentLevel) (t : Token) → IsNested b → IsNested (shallower b line t)
unfolding shallower
shallower-IsNested b line t v = elim (Bool-cases (line.col == (back popped.levels).col)) [
  | inl same ↦ rw same (same_level-IsNested popped line t popped_nested)
  | inr differs ↦ rw differs (
      replace_back-IsNested (report_indentation_error popped t) line (record {
        depth = popped_nested.depth;
        nested = popped_nested.nested;
        levels = popped_nested.levels;
      }))
]
  where
    popped : Builder
    popped = dedent_to line.col t b.levels b

    popped_nested : IsNested popped
    popped_nested = dedent_to-IsNested line.col t b.levels b v.depth v.nested v.levels

close_line-IsNested : (b : Builder) (t : Token) → IsNested b → IsNested (close_line b t)
unfolding close_line
close_line-IsNested b t v = elim (Bool-cases (b.pending.col == (back b.levels).col)) [
  | inl same ↦ rw same (same_level-IsNested measured b.pending t measured_nested)
  | inr differs ↦ elim (Bool-cases (ltb (back b.levels).col b.pending.col)) [
    | inl more ↦ rw (differs, more) (deeper-IsNested measured b.pending t measured_nested)
    | inr less ↦ rw (differs, less) (shallower-IsNested measured b.pending t measured_nested)
  ]
]
  where
    measured : Builder
    measured = record b { measuring = false }

    measured_nested : IsNested measured
    measured_nested = record { depth = v.depth; nested = v.nested; levels = v.levels }

push_out-IsNested :
    (b : Builder) (t : Token) → bracket_of t.type ≡ neither → IsNested b → IsNested (push_out b t)
unfolding push_out
push_out-IsNested b t h v = record {
  depth = v.depth;
  nested = push_out-nested b t v.depth h v.nested;
  levels = v.levels;
}

flush-IsNested : (b : Builder) (t : Token) → IsNested b → IsNested (flush b t)
unfolding flush
flush-IsNested b t v =
    let closed = flush_levels-closed t b.levels b v.depth v.nested v.levels in
    record { depth = 0; nested = closed.0; levels = closed.1 }

default-IsNested :
    (first : Bool) (b : Builder) (t : Token)
    → bracket_of t.type ≡ neither
    → IsNested b
    → IsNested (push_out (if first then close_line b t else b) t)
default-IsNested true b t h v = push_out-IsNested (close_line b t) t h (close_line-IsNested b t v)
default-IsNested false b t h v = push_out-IsNested b t h v

step-IsNested :
    (l : Label) (b : Builder) (t : Token)
    → bracket_of t.type ≡ neither
    → IsNested b
    → IsNested (step l b t)
unfolding step
step-IsNested on_space b t h v = record { depth = v.depth; nested = v.nested; levels = v.levels }
step-IsNested on_tab b t h v = record { depth = v.depth; nested = v.nested; levels = v.levels }
step-IsNested on_comment b t h v = push_out-IsNested b t h v
step-IsNested on_newline b t h v =
    let w = push_out-IsNested b t h v in
    record { depth = w.depth; nested = w.nested; levels = w.levels }
step-IsNested on_eof b t h v = push_out-IsNested (flush b t) t h (flush-IsNested b t v)
step-IsNested on_default b t h v = default-IsNested b.measuring b t h v

-- The input holds no INDENT or DEDENT, as the scanner makes none.
abbrev pub IsPlain : List Token → Type 0
IsPlain = All (λ t. bracket_of t.type ≡ neither)

run_tokens-IsNested :
    (ts : List Token) (b : Builder) → IsPlain ts → IsNested b → IsNested (run_tokens ts b)
unfolding run_tokens
run_tokens-IsNested [] b h v = v
run_tokens-IsNested (t ∷ ts) b h v =
    run_tokens-IsNested ts (step (label_of t.type) b t) h.1
      (step-IsNested (label_of t.type) b t h.0 v)

-- For input without INDENT and DEDENT, every DEDENT of the output closes an INDENT before it, and at
-- the end none is left open, also where the input does not end in an end-of-file token.
pub run_builder-balanced :
    (ts : List Token) (sink : Sink) → IsPlain ts → nesting 0 (run_builder ts sink).out ≡ some 0
unfolding run_builder nesting
run_builder-balanced ts sink h = elim (Bool-cases (ltb 1 (length b.levels))) [
  | inl open_blocks ↦
      rw (open_blocks, flush)
        (flush_levels-closed (last_or no_token b.out) b.levels b v.depth v.nested v.levels).0
  | inr closed ↦ rw closed (v.nested ∙ ap some (ground arith))
]
  where
    b : Builder
    b = run_tokens ts (initial sink)

    v : IsNested b
    v = run_tokens-IsNested ts (initial sink) h (record { depth = 0; nested = refl; levels = refl })
