-- ===== src/Lexer/Context/Brackets.antt =====
-- Brackets in the scan context.
use cythonpp.Prelude.{
  ℕ, zero, suc, ◌≡◌, refl, ap, ◌∙◌, Option, none, some, List, [], ◌∷◌, ◌++◌, arith, length,
  Option-cases, inl, inr,
}
use cythonpp.Lexer.TokenType.{TokenType}
use cythonpp.Lexer.Context.{
  ScanContext, BracketFrame, Arm, opens, closes, on_colon, on_arrow, on_assign, on_comma, on_lambda,
  on_line_end, on_default, arm_of, observe, observe_all, take_arm, start_line, open_frame,
  close_frame, observe_comma, colon_after_lambda, plain_colon, end_logical_line, bracket_depth,
  fresh,
}

-- The number of brackets open after a token; `none` where a closer meets no opener.
abbrev pub deepen : Arm → ℕ → Option ℕ
deepen opens d = some (suc d)
deepen closes zero = none
deepen closes (suc d) = some d
deepen _ d = some d

abbrev pub and_then : Option ℕ → (ℕ → Option ℕ) → Option ℕ
and_then none f = none
and_then (some d) f = f d

unfoldable pub depth_after : ℕ → List TokenType → Option ℕ
depth_after d [] = some d
depth_after d (t ∷ ts) = and_then (deepen (arm_of t) d) (λ e. depth_after e ts)

-- The frames that `d` opened brackets put on top of a context's own.
abbrev Above : ℕ → List BracketFrame → List BracketFrame → Type 0
Above zero base frames = frames ≡ base
Above (suc d) base [] = ⊥
Above (suc d) base (f ∷ fs) = Above d base fs

plain_colon-brackets :
    (fs : List BracketFrame) (c : ScanContext) → (plain_colon fs c).brackets ≡ c.brackets
unfolding plain_colon
plain_colon-brackets [] c = ground arith
plain_colon-brackets (f ∷ fs) c = ground arith

colon-brackets : (ls : List ℕ) (c : ScanContext) → (colon_after_lambda ls c).brackets ≡ c.brackets
unfolding colon_after_lambda
colon-brackets [] c = plain_colon-brackets c.brackets c
colon-brackets (l ∷ ls) c = ground (arith, plain_colon-brackets c.brackets c)

comma-brackets : (c : ScanContext) → (observe_comma c).brackets ≡ c.brackets
unfolding observe_comma
comma-brackets c = ground arith

start_line-brackets :
    (c : ScanContext) (t : TokenType)
    → ((start_line c t).brackets ≡ c.brackets) × ((start_line c t).annotation ≡ c.annotation)
unfolding start_line
start_line-brackets c t = ground arith

some_inj : {a b : ℕ} → some a ≡ some b → a ≡ b
some_inj h = cc

module _ (base : List BracketFrame) where
  moved :
      (d e : ℕ) (fs gs : List BracketFrame)
      → some d ≡ some e
      → gs ≡ fs
      → Above d base fs
      → Above e base gs
  moved d e fs gs h q above = rw (q, ← some_inj h) above

  Above-close :
      (d : ℕ) (fs : List BracketFrame) (c : ScanContext)
      → Above (suc d) base fs
      → Above d base (close_frame fs c).brackets
  unfolding close_frame
  Above-close d [] c h = absurd h
  Above-close d (f ∷ fs) c h = h

  take_arm-Above :
      (a : Arm) (t : TokenType) (c : ScanContext) (d e : ℕ)
      → deepen a d ≡ some e
      → Above d base c.brackets
      → Above e base (take_arm a t c).brackets
  unfolding take_arm open_frame end_logical_line
  take_arm-Above opens t c d e h above = moved (suc d) e _ _ h refl above
  take_arm-Above closes t c zero e h above = cc
  take_arm-Above closes t c (suc d) e h above =
      moved d e _ _ h refl (Above-close d c.brackets c above)
  take_arm-Above on_colon t c d e h above = moved d e _ _ h (colon-brackets c.lambda_depths c) above
  take_arm-Above on_arrow t c d e h above = moved d e _ _ h refl above
  take_arm-Above on_assign t c d e h above = moved d e _ _ h refl above
  take_arm-Above on_comma t c d e h above = moved d e _ _ h (comma-brackets c) above
  take_arm-Above on_lambda t c d e h above = moved d e _ _ h refl above
  take_arm-Above on_line_end t c d e h above = moved d e _ _ h refl above
  take_arm-Above on_default t c d e h above = moved d e _ _ h refl above

  observe_all-Above :
      (ts : List TokenType) (c : ScanContext) (d e : ℕ)
      → depth_after d ts ≡ some e
      → Above d base c.brackets
      → Above e base (observe_all ts c).brackets
  unfolding observe_all observe depth_after
  observe_all-Above [] c d e h above = moved d e _ _ h refl above
  observe_all-Above (t ∷ ts) c d e h above = elim (Option-cases (deepen (arm_of t) d)) [
    | inl bad ↦ cc (bad, h)
    | inr (k, good) ↦ observe_all-Above ts (observe c t) k e (rw good at h) (
        take_arm-Above (arm_of t) t (start_line c t) d k good
          (rw (start_line-brackets c t).0 above))
  ]

Above-length : (d : ℕ) (fs : List BracketFrame) → Above d [] fs → length fs ≡ d
Above-length zero fs h = ap length h
Above-length (suc d) [] h = absurd h
Above-length (suc d) (f ∷ fs) h = ap suc (Above-length d fs h)

-- From a fresh context, tokens whose brackets match leave as many frames as brackets are open.
pub bracket_depth-observe_all :
    (ts : List TokenType) (d : ℕ)
    → depth_after 0 ts ≡ some d
    → bracket_depth (observe_all ts fresh) ≡ d
unfolding bracket_depth
bracket_depth-observe_all ts d h = Above-length d _ (observe_all-Above [] ts fresh 0 d h refl)

observe_all-append :
    (ts us : List TokenType) (c : ScanContext)
    → observe_all (ts ++ us) c ≡ observe_all us (observe_all ts c)
unfolding observe_all
observe_all-append [] us c = refl
observe_all-append (t ∷ ts) us c = observe_all-append ts us (observe c t)

observe-opens :
    (t : TokenType) (c : ScanContext)
    → arm_of t ≡ opens
    → (observe c t).brackets ≡ record { opener = t; annotation = c.annotation } ∷ c.brackets
unfolding observe take_arm open_frame
observe-opens t c h = rw (h, (start_line-brackets c t).0, (start_line-brackets c t).1) refl

close_top :
    (fs : List BracketFrame) (c : ScanContext) (f : BracketFrame) (rest : List BracketFrame)
    → fs ≡ f ∷ rest
    → ((close_frame fs c).brackets ≡ rest) × ((close_frame fs c).annotation ≡ f.annotation)
unfolding close_frame
close_top fs c f rest h = rw h (refl, refl)

observe-closes :
    (t : TokenType) (c : ScanContext) (f : BracketFrame) (rest : List BracketFrame)
    → arm_of t ≡ closes
    → c.brackets ≡ f ∷ rest
    → ((observe c t).brackets ≡ rest) × ((observe c t).annotation ≡ f.annotation)
unfolding observe take_arm
observe-closes t c f rest h e =
    rw h (close_top _ (start_line c t) f rest ((start_line-brackets c t).0 ∙ e))

-- A pair of brackets around matched tokens leaves the frames and the annotation flag as they were
-- before the opener, whatever colons, commas, arrows, lambdas or line ends stand between.
pub observe_all-brackets :
    (opener closer : TokenType) (inner : List TokenType) (c : ScanContext)
    → arm_of opener ≡ opens
    → arm_of closer ≡ closes
    → depth_after 0 inner ≡ some 0
    → let after = observe_all (opener ∷ inner ++ closer ∷ []) c in
      (after.brackets ≡ c.brackets) × (after.annotation ≡ c.annotation)
unfolding observe_all
observe_all-brackets opener closer inner c ho hc h =
    rw (observe_all-append inner (closer ∷ []) (observe c opener)) (
      observe-closes closer (observe_all inner (observe c opener)) _ _ hc (
        observe_all-Above ((observe c opener).brackets) inner (observe c opener) 0 0 h refl
        ∙ observe-opens opener c ho))
