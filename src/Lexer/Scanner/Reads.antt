-- ===== src/Lexer/Scanner/Reads.antt =====
-- A cursor moves on over a text: what it leaves ahead, and its line and column.
use cythonpp.Prelude.{
  ℕ, zero, suc, ◌-◌, ◌≤◌, ◌<◌, ◌≡◌, ◌≢◌, refl, sym, ap, ◌∙◌, Bool, true, false, [], ◌∷◌, ◌++◌,
  length, length-append, arith, Bool-cases, ◌⊎◌, inl, inr,
}
use cythonpp.Prelude.Text.{Text}
use cythonpp.Lexer.Operators.{take}
use cythonpp.Lexer.Scanner.Cursor.{
  Cursor, peek, byte_at, advance, advance_by, advance_over, line_past, column_past, slice, rest_of,
}

unfoldable pub line_after : Text → ℕ → ℕ
line_after [] line = line
line_after (c ∷ cs) line = line_after cs (line_past c line)

unfoldable pub column_after : Text → ℕ → ℕ
column_after [] column = column
column_after (c ∷ cs) column = column_after cs (column_past c column)

-- A cursor reads a text and arrives at another.
abbrev pub Reads : Cursor → Text → Cursor → Type 0
Reads k w k' =
    (k.ahead ≡ w ++ k'.ahead)
    × (k'.line ≡ line_after w k.line)
    × (k'.column ≡ column_after w k.column)

abbrev pub Onward : Cursor → Cursor → Type 0
Onward k k' = (w : Text) × Reads k w k'

abbrev pub Past : Cursor → Cursor → Type 0
Past k k' = Onward k k' × (length k'.ahead < length k.ahead)

pub append_assoc : (u v w : Text) → (u ++ v) ++ w ≡ u ++ (v ++ w)
append_assoc [] v w = refl
append_assoc (c ∷ u) v w = ap (λ t. c ∷ t) (append_assoc u v w)

pub line_after-append : (v w : Text) (l : ℕ) → line_after (v ++ w) l ≡ line_after w (line_after v l)
unfolding line_after
line_after-append [] w l = refl
line_after-append (c ∷ v) w l = line_after-append v w (line_past c l)

pub column_after-append :
    (v w : Text) (l : ℕ) → column_after (v ++ w) l ≡ column_after w (column_after v l)
unfolding column_after
column_after-append [] w l = refl
column_after-append (c ∷ v) w l = column_after-append v w (column_past c l)

pub trans-Reads :
    (k k' k'' : Cursor) (v w : Text) → Reads k v k' → Reads k' w k'' → Reads k (v ++ w) k''
trans-Reads k k' k'' v w h g = (
  h.0 ∙ ap (λ t. v ++ t) g.0 ∙ sym (append_assoc v w k''.ahead),
  g.1 ∙ ap (line_after w) h.1 ∙ sym (line_after-append v w k.line),
  g.2 ∙ ap (column_after w) h.2 ∙ sym (column_after-append v w k.column),
)

pub none-Reads : (k : Cursor) → Reads k [] k
unfolding line_after column_after
none-Reads k = (refl, refl, refl)

pub refl-Onward : (k : Cursor) → Onward k k
unfolding line_after column_after
refl-Onward k = ([], (refl, refl, refl))

pub trans-Onward : (k k' k'' : Cursor) → Onward k k' → Onward k' k'' → Onward k k''
trans-Onward k k' k'' h g = (h.0 ++ g.0, trans-Reads k k' k'' h.0 g.0 h.1 g.1)

pub length-Onward : (k k' : Cursor) → Onward k k' → length k'.ahead ≤ length k.ahead
length-Onward k k' h =
    let total = ap length h.1.0 ∙ length-append h.0 k'.ahead in omega (arith, total)

pub advance-ahead : (k : Cursor) (c : ℕ) (cs : Text) → k.ahead ≡ c ∷ cs → (advance k).ahead ≡ cs
unfolding advance
advance-ahead k c cs e = rw e refl

pub advance-Reads :
    (k : Cursor) (c : ℕ) (cs : Text) → k.ahead ≡ c ∷ cs → Reads k (c ∷ []) (advance k)
unfolding advance line_after column_after
advance-Reads k c cs e = rw e (refl, refl, refl)

pub advance-Past : (k : Cursor) (c : ℕ) (cs : Text) → k.ahead ≡ c ∷ cs → Past k (advance k)
advance-Past k c cs e =
    ((c ∷ [], advance-Reads k c cs e), rw (advance-ahead k c cs e, e) (omega arith))

-- A byte other than 0 stands where `peek` finds it.
pub peek-ahead : (k : Cursor) → peek 0 k ≢ 0 → (cs : Text) × (k.ahead ≡ peek 0 k ∷ cs)
peek-ahead k h = go k.ahead h
  where
    go : (t : Text) → byte_at 0 t ≢ 0 → (cs : Text) × (t ≡ byte_at 0 t ∷ cs)
    go [] g = absurd (g refl)
    go (c ∷ cs) g = (cs, refl)

pub advance-Past_seen : (k : Cursor) → peek 0 k ≢ 0 → Past k (advance k)
advance-Past_seen k h = let seen = peek-ahead k h in advance-Past k (peek 0 k) seen.0 seen.1

pub peek-advance : (n : ℕ) (k : Cursor) → peek n (advance k) ≡ peek (suc n) k
unfolding advance
peek-advance n k = go k.ahead
  where
    go : (t : Text) → byte_at n (rest_of t) ≡ byte_at (suc n) t
    go [] = refl
    go (c ∷ cs) = refl

pub trans-Past : (k k' k'' : Cursor) → Past k k' → Onward k' k'' → Past k k''
trans-Past k k' k'' h g = (trans-Onward k k' k'' h.0 g, omega (arith, h.1, length-Onward k' k'' g))

pub Onward-Past : (k k' k'' : Cursor) → Onward k k' → Past k' k'' → Past k k''
Onward-Past k k' k'' h g = (trans-Onward k k' k'' h g.0, omega (arith, g.1, length-Onward k k' h))

-- Two bytes, of which the second is not 0.
pub advance-Past_twice : (k : Cursor) → peek 0 k ≢ 0 → peek 1 k ≢ 0 → Past k (advance (advance k))
advance-Past_twice k h g =
    trans-Past k (advance k) (advance (advance k)) (advance-Past_seen k h)
      (advance-Past_seen (advance k) (rw (peek-advance 0 k) g)).0

pub advance_over-Onward :
    (test : ℕ → Bool) (t : Text) (k : Cursor) → k.ahead ≡ t → Onward k (advance_over test t k)
unfolding advance_over
advance_over-Onward test [] k e = refl-Onward k
advance_over-Onward test (c ∷ cs) k e = elim (Bool-cases (test c)) [
  | inr stop ↦ rw (advance_over, stop) (refl-Onward k)
  | inl more ↦
      rw (advance_over, more)
        (trans-Onward k (advance k) (advance_over test cs (advance k)) (advance-Past k c cs e).0
          (advance_over-Onward test cs (advance k) (advance-ahead k c cs e)))
]

-- A loop whose test holds of the next byte reads it.
pub advance_over-Past :
    (test : ℕ → Bool) (t : Text) (k : Cursor)
    → k.ahead ≡ t
    → peek 0 k ≢ 0
    → test (peek 0 k) ≡ true
    → Past k (advance_over test t k)
unfolding advance_over
advance_over-Past test [] k e h g = absurd (h (rw e refl))
advance_over-Past test (c ∷ cs) k e h g =
    let holds : test c ≡ true = (rw e at g) in
    rw (advance_over, holds)
      (trans-Past k (advance k) (advance_over test cs (advance k)) (advance-Past k c cs e)
        (advance_over-Onward test cs (advance k) (advance-ahead k c cs e)))

pub advance_over-stop :
    (test : ℕ → Bool) (t : Text) (k : Cursor)
    → k.ahead ≡ t
    → test (peek 0 k) ≡ false
    → advance_over test t k ≡ k
unfolding advance_over
advance_over-stop test [] k e h = refl
advance_over-stop test (c ∷ cs) k e h =
    let fails : test c ≡ false = (rw e at h) in rw (advance_over, fails) refl

pub ahead-cases : (t : Text) → (t ≡ []) ⊎ ((c : ℕ) × (cs : Text) × (t ≡ c ∷ cs))
ahead-cases [] = inl refl
ahead-cases (c ∷ cs) = inr (c, cs, refl)

pub advance_by-Onward : (n : ℕ) (k : Cursor) → n ≤ length k.ahead → Onward k (advance_by n k)
unfolding advance_by
advance_by-Onward zero k h = refl-Onward k
advance_by-Onward (suc n) k h = elim (ahead-cases k.ahead) [
  | inl e ↦ absurd (omega (arith, ap length e))
  | inr (c, cs, e) ↦
      let rest : n ≤ length (advance k).ahead =
        rw (advance-ahead k c cs e) (omega (arith, ap length e)) in
      trans-Onward k (advance k) (advance_by n (advance k)) (advance-Past k c cs e).0
        (advance_by-Onward n (advance k) rest)
]

pub advance_by-Past : (n : ℕ) (k : Cursor) → n ≢ 0 → n ≤ length k.ahead → Past k (advance_by n k)
unfolding advance_by
advance_by-Past zero k nonzero h = absurd (nonzero refl)
advance_by-Past (suc n) k nonzero h = elim (ahead-cases k.ahead) [
  | inl e ↦ absurd (omega (arith, ap length e))
  | inr (c, cs, e) ↦
      let rest : n ≤ length (advance k).ahead =
        rw (advance-ahead k c cs e) (omega (arith, ap length e)) in
      trans-Past k (advance k) (advance_by n (advance k)) (advance-Past k c cs e)
        (advance_by-Onward n (advance k) rest)
]

-- A byte other than 0 at an offset: the text is longer than the offset.
pub peek-length : (n : ℕ) (t : Text) → byte_at n t ≢ 0 → n < length t
peek-length n [] h = absurd (h refl)
peek-length zero (c ∷ cs) h = omega arith
peek-length (suc n) (c ∷ cs) h = omega (arith, peek-length n cs h)

take-append : (w t : Text) → take (length (w ++ t) - length t) (w ++ t) ≡ w
take-append w t = go w (length (w ++ t) - length t) (omega (arith, length-append w t))
  where
    go : (v : Text) (n : ℕ) → n ≡ length v → take n (v ++ t) ≡ v
    go [] zero e = refl
    go [] (suc n) e = absurd (omega arith)
    go (c ∷ v) zero e = absurd (omega arith)
    go (c ∷ v) (suc n) e = ap (λ u. c ∷ u) (go v n (omega arith))

-- What is emitted from a start is what was read since.
pub slice-Reads : (k k' : Cursor) (w : Text) → Reads k w k' → slice k k' ≡ w
slice-Reads k k' w h = rw h.0 (take-append w k'.ahead)
