-- ===== src/Semantic/Narrowing/Merge.antt =====
-- The join of narrowings, path by path: which paths are visited, and what the loop leaves for each.
use cythonpp.Prelude.{
  ◌≡◌, refl, sym, ap, ◌∙◌, ◌↔◌, Bool, true, false, ◌||◌, Option, none, some, List, [], ◌∷◌,
  Bool-cases, Option-cases, inl, inr,
}
use cythonpp.Prelude.Text.{text_eq, text_eq_iff}
use cythonpp.Semantic.PyType.{PyType}
use cythonpp.Semantic.Subtype.Chain.{has_key}
use cythonpp.Semantic.Subtype.Walk.{has_key-append}
use cythonpp.Semantic.Narrowing.{
  NarrowedPath, Narrowed, NarrowingState, get, insert_path, insert_edge, insert_edges, with_entry,
  join_paths,
}

-- An edge has an entry for a path; so does one of several.
abbrev pub has_value : Option PyType → Bool
has_value none = false
has_value (some type) = true

abbrev pub is_narrowed : NarrowedPath → NarrowingState → Bool
is_narrowed path edge = has_value (get edge path)

unfoldable pub some_narrowed : NarrowedPath → List NarrowingState → Bool
some_narrowed path [] = false
some_narrowed path (edge ∷ edges) = is_narrowed path edge || some_narrowed path edges

or_assoc : (a b c : Bool) → ((a || b) || c) ≡ (a || (b || c))
or_assoc true b c = refl
or_assoc false b c = refl

or_false : (b : Bool) → (b || false) ≡ b
or_false true = refl
or_false false = refl

has_key-insert_path :
    (path p : NarrowedPath) (ps : List NarrowedPath)
    → has_key path (insert_path ps p) ≡ (has_key path ps || text_eq p path)
unfolding insert_path has_key
has_key-insert_path path p ps = elim (Bool-cases (has_key p ps)) [
  | inr new ↦
      rw new (
        has_key-append path ps (p ∷ [])
        ∙ ap (λ b. has_key path ps || b) (or_false (text_eq p path)))
  | inl old ↦ elim (Bool-cases (text_eq p path)) [
    | inr other ↦ rw (old, other) (sym (or_false (has_key path ps)))
    | inl same ↦
        let is = (text_eq_iff p path).0 same in
        let there : has_key path ps ≡ true = ap (λ q. has_key q ps) (sym is) ∙ old in
        rw (old, there) refl
  ]
]

is_narrowed-entry :
    (path : NarrowedPath) (e : Narrowed) (rest : NarrowingState)
    → is_narrowed path (e ∷ rest) ≡ (text_eq e.path path || is_narrowed path rest)
unfolding get
is_narrowed-entry path e rest = elim (Bool-cases (text_eq e.path path)) [
  | inl here ↦ rw here refl
  | inr other ↦ rw other refl
]

has_key-insert_edge :
    (path : NarrowedPath) (ps : List NarrowedPath) (edge : NarrowingState)
    → has_key path (insert_edge ps edge) ≡ (has_key path ps || is_narrowed path edge)
unfolding insert_edge get
has_key-insert_edge path ps [] = sym (or_false (has_key path ps))
has_key-insert_edge path ps (e ∷ rest) =
    has_key-insert_edge path (insert_path ps e.path) rest
    ∙ ap (λ b. b || is_narrowed path rest) (has_key-insert_path path e.path ps)
    ∙ or_assoc (has_key path ps) (text_eq e.path path) (is_narrowed path rest)
    ∙ ap (λ b. has_key path ps || b) (sym (is_narrowed-entry path e rest))

-- The loop over the edges collects the paths that some edge narrows.
pub has_key-insert_edges :
    (path : NarrowedPath) (edges : List NarrowingState) (ps : List NarrowedPath)
    → has_key path (insert_edges ps edges) ≡ (has_key path ps || some_narrowed path edges)
unfolding insert_edges some_narrowed
has_key-insert_edges path [] ps = sym (or_false (has_key path ps))
has_key-insert_edges path (edge ∷ edges) ps =
    has_key-insert_edges path edges (insert_edge ps edge)
    ∙ ap (λ b. b || some_narrowed path edges) (has_key-insert_edge path ps edge)
    ∙ or_assoc (has_key path ps) (is_narrowed path edge) (some_narrowed path edges)

pub some_inj {ℓ} : {A : Type ℓ} {a b : A} → some a ≡ some b → a ≡ b
some_inj e = cc

pub or_true : (b : Bool) {c : Bool} → c ≡ true → (b || c) ≡ true
or_true true h = refl
or_true false h = h

-- One round of the loop, where it answers.
join_paths-cons :
    (f : NarrowedPath → Option (Option PyType)) (q : NarrowedPath) (ps : List NarrowedPath)
    (out : NarrowingState)
    → join_paths f (q ∷ ps) ≡ some out
    → (entry : Option PyType) × (joined : NarrowingState) × (f q ≡ some entry)
      × (join_paths f ps ≡ some joined)
      × (with_entry q entry joined ≡ out)
unfolding join_paths
join_paths-cons f q ps out h = elim (Option-cases (f q)) [
  | inl lost ↦ let clash : none ≡ some out = (rw (join_paths, lost) at h) in cc
  | inr (entry, found) ↦ elim (Option-cases (join_paths f ps)) [
    | inl lost ↦ let clash : none ≡ some out = (rw (join_paths, found, lost) at h) in cc
    | inr (joined, rest) ↦
        (entry, joined, found, rest, some_inj (rw (join_paths, found, rest) at h))
  ]
]

get-with_entry :
    (q p : NarrowedPath) (entry : Option PyType) (joined : NarrowingState)
    → ((text_eq q p ≡ false) → get (with_entry q entry joined) p ≡ get joined p)
      × ((text_eq q p ≡ true)
          → (t : PyType) → entry ≡ some t
          → get (with_entry q entry joined) p ≡ some t)
      × ((text_eq q p ≡ true) → entry ≡ none → get (with_entry q entry joined) p ≡ get joined p)
unfolding get
get-with_entry q p none joined = (λ e. refl, λ e t h. absurd (none-some h), λ e h. refl)
  where
    none-some : {t : PyType} → none ≡ some t → ⊥
    none-some h = cc
get-with_entry q p (some u) joined = (λ e. rw e refl, λ e t h. rw e h, λ e h. absurd (some_none h))
  where
    some_none : {t : PyType} → some t ≡ none → ⊥
    some_none h = cc

-- What the loop gives a path is what its body gives it.
pub get-join_paths :
    (f : NarrowedPath → Option (Option PyType)) (ps : List NarrowedPath) (out : NarrowingState)
    (p : NarrowedPath) (t : PyType)
    → join_paths f ps ≡ some out
    → (get out p ≡ some t) ↔ ((has_key p ps ≡ true) × (f p ≡ some (some t)))
unfolding join_paths has_key get
get-join_paths f [] out p t h =
    let empty : [] ≡ out = some_inj h in
    (
      λ g. let clash : none ≡ some t = ap (λ o. get o p) empty ∙ g in cc,
      λ k. let clash : false ≡ true = k.0 in cc,
    )
get-join_paths f (q ∷ ps) out p t h =
    let round = join_paths-cons f q ps out h in
    let entry = round.0 in
    let joined = round.1 in
    let rest = get-join_paths f ps joined p t round.3 in
    let read = get-with_entry q p entry joined in
    elim (Bool-cases (text_eq q p)) [
      | inr other ↦
          let same : get out p ≡ get joined p = ap (λ o. get o p) (sym round.4) ∙ read.0 other in
          (
            λ g. let found = rest.0 (sym same ∙ g) in (rw other found.0, found.1),
            λ k. same ∙ rest.1 ((rw other at k.0), k.1),
          )
      | inl here ↦
          let is : q ≡ p = (text_eq_iff q p).0 here in
          let at_p : f p ≡ some entry = ap f (sym is) ∙ round.2 in
          elim (Option-cases entry) [
            | inr (u, e) ↦
                let same : get out p ≡ some u = ap (λ o. get o p) (sym round.4) ∙ read.1 here u e in
                (
                  λ g. (rw here refl, at_p ∙ ap some (e ∙ sym same ∙ g)),
                  λ k. same ∙ sym e ∙ some_inj (sym at_p ∙ k.1),
                )
            | inl e ↦
                let same : get out p ≡ get joined p =
                  ap (λ o. get o p) (sym round.4) ∙ read.2 here e in
                (
                  λ g. let found = rest.0 (sym same ∙ g) in (rw here refl, found.1),
                  λ k. absurd (none_is_some (sym e ∙ some_inj (sym at_p ∙ k.1))),
                )
          ]
    ]
  where
    none_is_some : none ≡ some t → ⊥
    none_is_some g = cc
