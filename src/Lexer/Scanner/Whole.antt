-- ===== src/Lexer/Scanner/Whole.antt =====
-- The main loop ends at the end of the source, with all of it in the tokens.
use cythonpp.Prelude.{
  ℕ, zero, suc, ◌+◌, ◌*◌, ◌≤◌, ◌≡◌, refl, ap, Bool, true, false, List, [], ◌∷◌, ◌++◌, if◌then◌else◌,
  Option, some, length, Bool-cases, ◌⊎◌, inl, inr, arith,
}
use cythonpp.Prelude.Text.{Text}
use cythonpp.Lexer.TokenType.{newline, token_eof}
use cythonpp.Lexer.Token.{Token}
use cythonpp.Lexer.Context.{observe_all, fresh}
use cythonpp.Lexer.Scanner.Cursor.{Cursor, peek, advance}
use cythonpp.Lexer.Scanner.State.{Scanner, reset, move, emit, token_at}
use cythonpp.Lexer.Scanner.Pieces.{scan_line_start, scan_end_of_line, scan_line_continuation}
use cythonpp.Lexer.Scanner.Fstrings.{at_end, ◌then◌}
use cythonpp.Lexer.Scanner.Tokenize.{
  LoopStep, next_step, ends, line_start, blank, line_end, continues, a_token, is_blank, scan_loop,
  last_newline, finish, enough_fuel, tokenize,
}
use cythonpp.Lexer.Scanner.Reads.{Past, none-Reads, length-Onward, peek-ahead, ahead-cases}
use cythonpp.Lexer.Scanner.Weave.{
  Woven, is_gap, Inv, skip-Scans, reset-Inv, emit-Inv, significant_types,
}
use cythonpp.Lexer.Scanner.Steps.{
  blank-peek, line_end-peek, continues-peek, a_token-at_end, line_start-flag, ends-at_end,
}
use cythonpp.Lexer.Scanner.Total.{scan_token-Returns}
use cythonpp.Lexer.Scanner.Lines.{
  scan_line_start-MayScan, scan_line_start-flag, scan_end_of_line-Scans,
  scan_line_continuation-Scans,
}

LoopStep-cases :
    (x : LoopStep)
    → (x ≡ ends)
      ⊎ ((x ≡ line_start) ⊎ ((x ≡ blank) ⊎ ((x ≡ line_end) ⊎ ((x ≡ continues) ⊎ (x ≡ a_token)))))
LoopStep-cases ends = inl refl
LoopStep-cases line_start = inr (inl refl)
LoopStep-cases blank = inr (inr (inl refl))
LoopStep-cases line_end = inr (inr (inr (inl refl)))
LoopStep-cases continues = inr (inr (inr (inr (inl refl))))
LoopStep-cases a_token = inr (inr (inr (inr (inr refl))))

-- Two rounds for a byte ahead, and one more at the start of a line.
abbrev rounds : Scanner → ℕ
rounds s = 2 * length s.cursor.ahead + (if s.at_line_start then 2 else 1)

rounds-bound : (s : Scanner) → rounds s ≤ 2 * length s.cursor.ahead + 2
rounds-bound s = elim (Bool-cases s.at_line_start) [
  | inl e ↦ rw e (omega arith)
  | inr e ↦ rw e (omega arith)
]

rounds-least : (s : Scanner) → 2 * length s.cursor.ahead + 1 ≤ rounds s
rounds-least s = elim (Bool-cases s.at_line_start) [
  | inl e ↦ rw e (omega arith)
  | inr e ↦ rw e (omega arith)
]

rounds-line_start :
    (s : Scanner)
    → ((s.at_line_start ≡ true) → rounds s ≡ 2 * length s.cursor.ahead + 2)
      × ((s.at_line_start ≡ false) → rounds s ≡ 2 * length s.cursor.ahead + 1)
rounds-line_start s = (
  λ e. ap (λ b. 2 * length s.cursor.ahead + (if b then 2 else 1)) e,
  λ e. ap (λ b. 2 * length s.cursor.ahead + (if b then 2 else 1)) e,
)

abbrev Finishes : Text → Option Scanner → Type 0
Finishes source r = (s : Scanner) × (r ≡ some s) × Inv source s × (s.cursor.ahead ≡ [])

at_end-ahead : (k : Cursor) → at_end k ≡ true → k.ahead ≡ []
at_end-ahead k h = elim (ahead-cases k.ahead) [
  | inl e ↦ e
  | inr (c, cs, e) ↦ let clash : false ≡ true = (rw e at h) in cc
]

blank-gap : (c : ℕ) → is_blank c ≡ true → is_gap (c ∷ []) ≡ true
unfolding is_gap
blank-gap c h = ground (arith, h)

-- The rounds left are enough after something was read.
rounds-Past :
    (s t : Scanner) (fuel : ℕ) → rounds s ≤ suc fuel → Past s.cursor t.cursor → rounds t ≤ fuel
rounds-Past s t fuel enough p = omega (arith, rounds-least s, rounds-bound t, enough, p.1)

scan_loop-Finishes :
    (source : Text) (fuel : ℕ) (s : Scanner)
    → Inv source s
    → rounds s ≤ fuel
    → Finishes source (scan_loop fuel s)
unfolding scan_loop
scan_loop-Finishes source zero s h enough = absurd (omega (arith, rounds-least s))
scan_loop-Finishes source (suc fuel) s h enough =
    elim (LoopStep-cases (next_step s.at_line_start s.cursor)) [
      | inl e ↦
          rw (scan_loop, e)
            (s, refl, h, at_end-ahead s.cursor (ends-at_end s.at_line_start s.cursor e))
      | inr (inl e) ↦
          let t = scan_line_start s in
          let p = scan_line_start-MayScan source s h in
          let flag = line_start-flag s.at_line_start s.cursor e in
          let needed = (rounds-line_start s).0 flag in
          let needs = (rounds-line_start t).1 (scan_line_start-flag s) in
          let left = length-Onward s.cursor t.cursor p.1 in
          rw (scan_loop, e)
            (scan_loop-Finishes source fuel t p.0 (omega (arith, needed, needs, left, enough)))
      | inr (inr (inl e)) ↦
          let is = blank-peek s.at_line_start s.cursor e in
          let seen = peek-ahead s.cursor (λ z. ground (arith, is)) in
          let p =
            skip-Scans source s (peek 0 s.cursor) seen.0 h seen.1
              (blank-gap (peek 0 s.cursor) is) in
          let t = move (advance s.cursor) s in
          rw (scan_loop, e) (scan_loop-Finishes source fuel t p.0 (rounds-Past s t fuel enough p.1))
      | inr (inr (inr (inl e))) ↦
          let t = scan_end_of_line s in
          let p = scan_end_of_line-Scans source s h (line_end-peek s.at_line_start s.cursor e) in
          rw (scan_loop, e) (scan_loop-Finishes source fuel t p.0 (rounds-Past s t fuel enough p.1))
      | inr (inr (inr (inr (inl e)))) ↦
          let t = scan_line_continuation s in
          let p =
            scan_line_continuation-Scans source s h (continues-peek s.at_line_start s.cursor e) in
          rw (scan_loop, e) (scan_loop-Finishes source fuel t p.0 (rounds-Past s t fuel enough p.1))
      | inr (inr (inr (inr (inr e)))) ↦
          let scanned =
            scan_token-Returns source fuel s h (a_token-at_end s.at_line_start s.cursor e)
              (omega (arith, rounds-least s, enough)) in
          let t = scanned.0 in
          rw (scan_loop, e, scanned.1)
            (scan_loop-Finishes source fuel t scanned.2.0 (rounds-Past s t fuel enough scanned.2.1))
    ]

last_newline-Inv :
    (source : Text) (s : Scanner)
    → Inv source s
    → Inv source (last_newline s) × ((last_newline s).cursor ≡ s.cursor)
unfolding emit
last_newline-Inv source s h = go s.line_has_content
  where
    go :
        (b : Bool)
        → Inv source
            (if b then record (emit newline [] s.cursor s) { line_has_content = false } else s)
          × ((if b
                then record (emit newline [] s.cursor s) { line_has_content = false }
                else s).cursor
              ≡ s.cursor)
    go false = (h, refl)
    go true = (emit-Inv source newline [] s.cursor s h (none-Reads s.cursor), refl)

finish-Inv :
    (source : Text) (s : Scanner)
    → Inv source s
    → Inv source (finish s) × ((finish s).cursor ≡ s.cursor)
unfolding finish emit
finish-Inv source s h =
    let t = last_newline s in
    let last = last_newline-Inv source s h in
    (emit-Inv source token_eof [] t.cursor t last.0 (none-Reads t.cursor), last.1)

-- The scanner returns tokens for every source, and the whole source is woven of them: each token's
-- lexeme is the text that starts at its line and column and ends at its end line and end column, in
-- order, and what stands between two of them is whitespace or line continuations.
pub tokenize-Woven :
    (source : Text)
    → (ts : List Token) × (end : Cursor) × (tokenize source ≡ some ts)
      × Woven source ts end
      × (end.ahead ≡ [])
unfolding tokenize
tokenize-Woven source =
    let run =
      scan_loop-Finishes source (enough_fuel source) (reset source) (reset-Inv source)
        (omega arith) in
    let s = run.0 in
    let done = finish-Inv source s run.2 in
    ((finish s).tokens, (finish s).cursor, rw (tokenize, run.1) refl, done.0.0, rw done.1 run.3)

-- When the main loop ends, which it does, the context is what the significant tokens so far made of
-- it, in order: those of every type but spaces, tabs, comments and the end of the file.
pub scan_loop-observe_all :
    (source : Text)
    → (s : Scanner) × (scan_loop (enough_fuel source) (reset source) ≡ some s)
      × (s.context ≡ observe_all (significant_types s.tokens) fresh)
scan_loop-observe_all source =
    let run =
      scan_loop-Finishes source (enough_fuel source) (reset source) (reset-Inv source)
        (omega arith) in
    (run.0, run.1, run.2.1)

-- The last token is the end of the file, of no text, at the place where the source ends.
pub tokenize-token_eof :
    (source : Text)
    → (ts : List Token) × (end : Cursor) × (tokenize source
        ≡ some (ts ++ (token_at token_eof [] end end ∷ [])))
      × Woven source ts end
      × (end.ahead ≡ [])
unfolding tokenize finish emit
tokenize-token_eof source =
    let run =
      scan_loop-Finishes source (enough_fuel source) (reset source) (reset-Inv source)
        (omega arith) in
    let t = last_newline run.0 in
    let last = last_newline-Inv source run.0 run.2 in
    (t.tokens, t.cursor, rw (tokenize, run.1) refl, last.0.0, rw last.1 run.3)
