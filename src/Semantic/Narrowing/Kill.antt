-- ===== src/Semantic/Narrowing/Kill.antt =====
-- What killing a path leaves.
use cythonpp.Prelude.{
  ◌≡◌, refl, sym, ap, ◌∙◌, ◌↔◌, Bool, true, false, ◌||◌, none, some, [], ◌∷◌, ◌++◌, ◌==◌, ==_iff,
  if◌then◌else◌, Bool-cases, ◌⊎◌, inl, inr, arith,
}
use cythonpp.Prelude.Text.{Text, text_eq, text_eq_iff}
use cythonpp.Semantic.PyType.{PyType}
use cythonpp.Semantic.Narrowing.{NarrowedPath, NarrowingState, is_proper_prefix, get, set, kill}

-- A path lies below another: it is that path, a dot, and more.
abbrev pub IsBelow : NarrowedPath → NarrowedPath → Type 0
IsBelow path candidate = (rest : Text) × (candidate ≡ path ++ (b'.' ∷ rest))

prefix_sound :
    (path candidate : NarrowedPath)
    → is_proper_prefix path candidate ≡ true
    → IsBelow path candidate
unfolding is_proper_prefix
prefix_sound [] [] h = cc
prefix_sound [] (c ∷ candidate) h = (candidate, ap (λ x. x ∷ candidate) ((==_iff c b'.').0 h))
prefix_sound (a ∷ path) [] h = cc
prefix_sound (a ∷ path) (c ∷ candidate) h = elim (Bool-cases (a == c)) [
  | inr e ↦ let clash : false ≡ true = (rw e at h) in cc
  | inl e ↦
      let rest = prefix_sound path candidate (rw e at h) in
      let same : c ≡ a = ground (arith, e) in
      (rest.0, ap (λ x. x ∷ candidate) same ∙ ap (λ t. a ∷ t) rest.1)
]

prefix_complete :
    (path : NarrowedPath) (rest : Text) → is_proper_prefix path (path ++ (b'.' ∷ rest)) ≡ true
unfolding is_proper_prefix
prefix_complete [] rest = refl
prefix_complete (a ∷ path) rest =
    let same : (a == a) ≡ true = (==_iff a a).1 refl in rw same (prefix_complete path rest)

pub is_proper_prefix_iff-IsBelow :
    (path candidate : NarrowedPath)
    → (is_proper_prefix path candidate ≡ true) ↔ IsBelow path candidate
is_proper_prefix_iff-IsBelow path candidate =
    (prefix_sound path candidate, λ b. rw b.1 (prefix_complete path b.0))

-- Entries for a path that is no key are passed over.
get-kill_lem :
    (entries : NarrowingState) (path query : NarrowedPath)
    → get (kill entries path) query
      ≡ (if text_eq query path || is_proper_prefix path query then none else get entries query)
unfolding get kill
get-kill_lem [] path query = elim (Bool-cases (text_eq query path || is_proper_prefix path query)) [
  | inl gone ↦ rw gone refl
  | inr kept ↦ rw kept refl
]
get-kill_lem (e ∷ rest) path query =
    let later = get-kill_lem rest path query in
    elim (Bool-cases (text_eq e.path query)) [
      | inl here ↦
          let same : e.path ≡ query = (text_eq_iff e.path query).0 here in
          let moved = ap (λ k. text_eq k path || is_proper_prefix path k) same in
          elim (Bool-cases (text_eq query path || is_proper_prefix path query)) [
            | inl gone ↦ rw (moved ∙ gone, gone) (later ∙ rw gone refl)
            | inr kept ↦ rw (moved ∙ kept, kept, here) refl
          ]
      | inr other ↦ elim (Bool-cases (text_eq e.path path || is_proper_prefix path e.path)) [
        | inl dropped ↦ rw (dropped, other) later
        | inr held ↦ rw (held, other) later
      ]
    ]

-- Killing a path forgets that path and every path below it, at a dot, and nothing else.
pub get-kill :
    (entries : NarrowingState) (path query : NarrowedPath)
    → (((query ≡ path) ⊎ IsBelow path query) → get (kill entries path) query ≡ none)
      × ((query ≡ path → ⊥)
          → (IsBelow path query → ⊥)
          → get (kill entries path) query ≡ get entries query)
get-kill entries path query = (
  λ gone. get-kill_lem entries path query ∙ rw (is_gone gone) refl,
  λ other apart. elim (Bool-cases (text_eq query path)) [
    | inl same ↦ absurd (other ((text_eq_iff query path).0 same))
    | inr differs ↦ elim (Bool-cases (is_proper_prefix path query)) [
      | inl below ↦ absurd (apart (prefix_sound path query below))
      | inr free ↦ get-kill_lem entries path query ∙ rw (differs, free) refl
    ]
  ],
)
  where
    is_gone :
        ((query ≡ path) ⊎ IsBelow path query)
        → (text_eq query path || is_proper_prefix path query) ≡ true
    is_gone (inl e) = rw ((text_eq_iff query path).1 e) refl
    is_gone (inr b) = or_true (text_eq query path) ((is_proper_prefix_iff-IsBelow path query).1 b)
      where
        or_true : (b : Bool) → {c : Bool} → c ≡ true → (b || c) ≡ true
        or_true true h = refl
        or_true false h = h

text_eq-false : (p q : Text) → (q ≡ p → ⊥) → text_eq p q ≡ false
text_eq-false p q differ = elim (Bool-cases (text_eq p q)) [
  | inl same ↦ absurd (differ (sym ((text_eq_iff p q).0 same)))
  | inr other ↦ other
]

text_eq-true : (p : Text) → text_eq p p ≡ true
text_eq-true p = (text_eq_iff p p).1 refl

-- A path that was set has the type it was set to, and every other path what it had.
pub get-set :
    (entries : NarrowingState) (path query : NarrowedPath) (type : PyType)
    → (get (set entries path type) path ≡ some type)
      × ((query ≡ path → ⊥) → get (set entries path type) query ≡ get entries query)
unfolding get set
get-set [] path query type =
    (rw (text_eq-true path) refl, λ differ. rw (text_eq-false path query differ) refl)
get-set (e ∷ rest) path query type =
    let later = get-set rest path query type in
    elim (Bool-cases (text_eq e.path path)) [
      | inl here ↦
          let same : e.path ≡ path = (text_eq_iff e.path path).0 here in
          (
            rw (here, text_eq-true path) refl,
            λ differ.
                let apart = text_eq-false path query differ in
                let moved = ap (λ k. text_eq k query) same in rw (here, apart, moved ∙ apart) refl,
          )
      | inr other ↦ (
        rw (other, other) later.0,
        λ differ. elim (Bool-cases (text_eq e.path query)) [
          | inl found ↦ rw (other, found) refl
          | inr free ↦ rw (other, free) (later.1 differ)
        ],
      )
    ]
