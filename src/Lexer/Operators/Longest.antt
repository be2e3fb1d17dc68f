-- ===== src/Lexer/Operators/Longest.antt =====
-- The longest match of an operator.
use cythonpp.Prelude.{
  ℕ, zero, suc, ◌≤◌, ◌<◌, ◌≡◌, refl, sym, ◌∙◌, ◌⊎◌, inl, inr, none, some, [], ◌∷◌, arith, length,
  leb, Bool-cases, Option-cases,
}
use cythonpp.Prelude.Text.{Text}
use cythonpp.Lexer.Operators.{
  find_operator, take, OperatorMatch, longest_from, start_length, longest_operator_at,
  operator_lexeme_of,
}
use cythonpp.Lexer.Operators.Rows.{found-IsRow, length-take}

-- A longest match that starts from a length finds the longest up to it.
abbrev IsLongest : ℕ → Text → OperatorMatch → Type 0
IsLongest n word m =
    (m.length ≤ n)
    × ((k : ℕ) → m.length < k → k ≤ n → find_operator (take k word) ≡ none)
    × ((m.length ≡ 0) ⊎ (find_operator (take m.length word) ≡ some m.type))

Nat-cases : (k n : ℕ) → k ≤ suc n → (k ≤ n) ⊎ (k ≡ suc n)
Nat-cases k n h = elim (Bool-cases (leb k n)) [
  | inl le ↦ inl (ground arith)
  | inr gt ↦ inr (ground arith)
]

longest_from-IsLongest : (n : ℕ) (word : Text) → IsLongest n word (longest_from n word)
unfolding longest_from
longest_from-IsLongest zero word = (omega arith, λ k h l. absurd (omega arith), inl refl)
longest_from-IsLongest (suc n) word = elim (Option-cases (find_operator (take (suc n) word))) [
  | inr (t, found) ↦
      rw (longest_from, found) (omega arith, λ k h l. absurd (omega arith), inr found)
  | inl missing ↦
      let shorter = longest_from-IsLongest n word in
      let longer : (k : ℕ)
          → (k ≤ n → find_operator (take k word) ≡ none)
          → k ≤ suc n
          → find_operator (take k word) ≡ none =
        λ k below l. elim (Nat-cases k n l) [ inl h ↦ below h | inr e ↦ rw e missing ] in
      rw (longest_from, missing)
        (omega (arith, shorter.0), λ k h l. longer k (λ h2. shorter.1 k h h2) l, shorter.2)
]

start_length-min : (word : Text) → (start_length word ≤ length word) × (start_length word ≤ 3)
start_length-min [] = (omega arith, omega arith)
start_length-min (a ∷ []) = (omega arith, omega arith)
start_length-min (a ∷ b ∷ []) = (omega arith, omega arith)
start_length-min (a ∷ b ∷ c ∷ cs) = (omega arith, omega arith)

start_length-short : (word : Text) → (k : ℕ) → start_length word < k → k ≤ length word → 3 < k
start_length-short [] k h l = absurd (omega arith)
start_length-short (a ∷ []) k h l = absurd (omega arith)
start_length-short (a ∷ b ∷ []) k h l = absurd (omega arith)
start_length-short (a ∷ b ∷ c ∷ cs) k h l = omega arith

no_long_operator :
    (word : Text) (k : ℕ) → 3 < k → k ≤ length word → find_operator (take k word) ≡ none
no_long_operator word k h l = elim (Option-cases (find_operator (take k word))) [
  | inl missing ↦ missing
  | inr (t, found) ↦
      let short = (found-IsRow (take k word) t found).0 in
      let full = length-take k word l in absurd (omega arith)
]

-- The longest operator at a text is an operator of the table that the text starts with, read back as
-- exactly those bytes from its type, and no longer start of the text is an operator; when no start of
-- the text is one, the match has length 0.
pub longest_operator_at-longest :
    (word : Text)
    → ((longest_operator_at word).length ≤ length word)
      × ((k : ℕ)
          → (longest_operator_at word).length < k
          → k ≤ length word
          → find_operator (take k word) ≡ none)
      × (((longest_operator_at word).length ≡ 0)
          ⊎ (operator_lexeme_of (longest_operator_at word).type
              ≡ take (longest_operator_at word).length word))
unfolding longest_operator_at
longest_operator_at-longest word =
    let best = longest_from-IsLongest (start_length word) word in
    let bounds = start_length-min word in
    (
      omega (arith, best.0, bounds.0),
      λ k h l. elim (Bool-cases (leb k (start_length word))) [
        | inl le ↦ best.1 k h (ground arith)
        | inr gt ↦ no_long_operator word k (start_length-short word k (ground arith) l) l
      ],
      elim best.2 [
        | inl none_found ↦ inl none_found
        | inr found ↦
            inr
              (found-IsRow (take (longest_from (start_length word) word).length word)
                (longest_from (start_length word) word).type found).1
      ],
    )

zero_or_positive : (n : ℕ) → (n ≡ 0) ⊎ (0 < n)
zero_or_positive zero = inl refl
zero_or_positive (suc n) = inr (omega arith)

-- Where no start of a text is an operator, no operator is matched.
pub longest_operator_at-none :
    (word : Text)
    → ((k : ℕ) → 0 < k → k ≤ length word → find_operator (take k word) ≡ none)
    → (longest_operator_at word).length ≡ 0
unfolding longest_operator_at
longest_operator_at-none word h =
    let best = longest_from-IsLongest (start_length word) word in
    let bounds = start_length-min word in
    let m = longest_from (start_length word) word in
    elim best.2 [
      | inl nothing ↦ nothing
      | inr found ↦ elim (zero_or_positive m.length) [
        | inl least ↦ least
        | inr positive ↦
            let missing = h m.length positive (omega (arith, best.0, bounds.0)) in
            let clash : none ≡ some m.type = sym missing ∙ found in cc
      ]
    ]
