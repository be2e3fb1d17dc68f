-- ===== src/Semantic/Scopes/Resolve.antt =====
-- What a name resolves to, and what binding and rebinding it change.
use cythonpp.Prelude.{
  ◌≡◌, refl, sym, ap, ◌∙◌, Bool, true, false, ◌||◌, not, Option, none, some, List, [], ◌∷◌, ◌++◌,
  inl, inr, Bool-cases, if◌then◌else◌,
}
use cythonpp.Prelude.Text.{Text, text_eq, text_eq_iff}
use cythonpp.Semantic.Scopes.{
  Binding, Bindings, Scope, ScopeStack, Resolution, find, assign, is_some, is_class_scope,
  find_enclosing, resolve, bound_outside, bound_in_current_scope, bound_in_an_enclosing_scope, bind,
  rebind,
}

-- What a name sees: the bindings of its own scope, then those of the scopes around it that are no
-- class, from the nearest.
pub visible_outside : List Scope → Bindings
visible_outside [] = []
visible_outside (scope ∷ rest) =
    (if is_class_scope scope.kind then [] else scope.bindings) ++ visible_outside rest

pub visible : ScopeStack → Bindings
visible s = s.current.bindings ++ visible_outside s.enclosing

-- The first of two answers that is one.
abbrev first_some : Option Binding → Option Binding → Option Binding
first_some (some b) o = some b
first_some none o = o

find-append :
    (name : Text) (bs cs : Bindings)
    → find name (bs ++ cs) ≡ first_some (find name bs) (find name cs)
unfolding find
find-append name [] cs = refl
find-append name ((key, b) ∷ bs) cs = elim (Bool-cases (text_eq key name)) [
  | inl same ↦ rw (find, same)
  | inr other ↦ rw (find, other) (find-append name bs cs)
]

step_enclosing :
    (c : Bool) (o outer : Option Binding)
    → (if c then outer else elim o [ some b ↦ some b | none ↦ outer ])
      ≡ first_some (if c then none else o) outer
step_enclosing true o outer = refl
step_enclosing false none outer = refl
step_enclosing false (some b) outer = refl

find_if :
    (name : Text) (c : Bool) (bs : Bindings)
    → (if c then none else find name bs) ≡ find name (if c then [] else bs)
unfolding find
find_if name true bs = refl
find_if name false bs = refl

find_enclosing-visible_outside :
    (name : Text) (scopes : List Scope)
    → find_enclosing name scopes ≡ find name (visible_outside scopes)
unfolding find_enclosing visible_outside
find_enclosing-visible_outside name [] = refl
find_enclosing-visible_outside name (scope ∷ rest) =
    step_enclosing (is_class_scope scope.kind) (find name scope.bindings) (find_enclosing name rest)
    ∙ ap (λ o. first_some o (find_enclosing name rest))
        (find_if name (is_class_scope scope.kind) scope.bindings)
    ∙ ap (first_some (find name (if is_class_scope scope.kind then [] else scope.bindings)))
        (find_enclosing-visible_outside name rest)
    ∙ sym (find-append name _ (visible_outside rest))

step_bound :
    (c : Bool) (o outer : Option Binding) (x : Bool)
    → x ≡ is_some outer
    → (if c then x else if is_some o then true else x)
      ≡ is_some (if c then outer else elim o [ some b ↦ some b | none ↦ outer ])
step_bound true o outer x h = h
step_bound false none outer x h = h
step_bound false (some b) outer x h = refl

bound_outside-find_enclosing :
    (name : Text) (scopes : List Scope)
    → bound_outside name scopes ≡ is_some (find_enclosing name scopes)
unfolding bound_outside find_enclosing
bound_outside-find_enclosing name [] = refl
bound_outside-find_enclosing name (scope ∷ rest) =
    step_bound (is_class_scope scope.kind) (find name scope.bindings) (find_enclosing name rest) _
      (bound_outside-find_enclosing name rest)

-- The answer of `resolve` from the two searches.
abbrev answered : Option Binding → Option Binding → Resolution
answered o outer = elim o [
  | some b ↦ record { binding = some b; in_own_scope = true }
  | none ↦ record { binding = outer; in_own_scope = false }
]

resolved :
    (o outer : Option Binding) (outside : Bool)
    → outside ≡ is_some outer
    → ((answered o outer).binding ≡ first_some o outer)
      × ((answered o outer).in_own_scope ≡ is_some o)
      × (is_some (answered o outer).binding ≡ (is_some o || outside))
resolved none outer outside h = (refl, refl, sym h)
resolved (some b) outer outside h = (refl, refl, refl)

-- A name resolves to its first binding among those it sees, where the scopes of enclosing classes
-- are not seen; the flag tells whether it is bound in the current scope, and the two Boolean
-- questions agree with it.
pub resolve-visible :
    (s : ScopeStack) (name : Text)
    → ((resolve s name).binding ≡ find name (visible s))
      × ((resolve s name).in_own_scope ≡ bound_in_current_scope s name)
      × (is_some (resolve s name).binding
          ≡ (bound_in_current_scope s name || bound_in_an_enclosing_scope s name))
unfolding resolve visible bound_in_current_scope bound_in_an_enclosing_scope
resolve-visible s name =
    let own = find name s.current.bindings in
    let parts =
      resolved own (find_enclosing name s.enclosing) (bound_outside name s.enclosing)
        (bound_outside-find_enclosing name s.enclosing) in
    (
      parts.0
          ∙ ap (first_some own) (find_enclosing-visible_outside name s.enclosing)
          ∙ sym (find-append name s.current.bindings (visible_outside s.enclosing)),
      parts.1,
      parts.2,
    )

-- Two tests of one name, of which the first wins.
if_same :
    (p : Bool) (a b c : Option Binding)
    → (if p then a else c) ≡ (if p then a else (if p then b else c))
if_same true a b c = refl
if_same false a b c = refl

if_apart :
    (p q : Bool) (a b c : Option Binding)
    → (p ≡ true → q ≡ false)
    → (if p then b else (if q then a else c)) ≡ (if q then a else (if p then b else c))
if_apart true true a b c h = let clash = h refl in cc
if_apart true false a b c h = refl
if_apart false q a b c h = refl

other_key :
    (key name other : Text)
    → text_eq key name ≡ false
    → text_eq key other ≡ true
    → text_eq name other ≡ false
other_key key name other h same = elim (Bool-cases (text_eq name other)) [
  | inl equal ↦
      let e = (text_eq_iff key other).0 same ∙ sym ((text_eq_iff name other).0 equal) in
      let clash = sym ((text_eq_iff key name).1 e) ∙ h in cc
  | inr apart ↦ apart
]

find-assign :
    (name other : Text) (b : Binding) (bs : Bindings)
    → find other (assign name b bs) ≡ (if text_eq name other then some b else find other bs)
unfolding find assign
find-assign name other b [] = refl
find-assign name other b ((key, c) ∷ bs) = elim (Bool-cases (text_eq key name)) [
  | inl same ↦
      rw (assign, same)
        (rw ((text_eq_iff key name).0 same)
          (if_same (text_eq name other) (some b) (some c) (find other bs)))
  | inr apart ↦
      rw (assign, apart)
        (ap (λ o. if text_eq key other then some c else o) (find-assign name other b bs)
          ∙ if_apart (text_eq key other) (text_eq name other) (some b) (some c) (find other bs)
              (other_key key name other apart))
]

-- The binding that a name has after a new one: its own if the name is the new one's.
abbrev pub updated : Text → Text → Binding → Option Binding → Option Binding
updated name other b before = if text_eq name other then some b else before

-- Rebinding a name changes what that name has in the current scope and nothing else; binding does
-- the same where the current scope has no such name, and nothing at all where it has, which its
-- answer tells.
pub rebind-find :
    (s : ScopeStack) (name other : Text) (b : Binding)
    → (find other (rebind s name b).current.bindings
        ≡ updated name other b (find other s.current.bindings))
      × ((rebind s name b).enclosing ≡ s.enclosing)
      × ((bind s name b).0 ≡ not (bound_in_current_scope s name))
      × ((bind s name b).1 ≡ (if bound_in_current_scope s name then s else rebind s name b))
unfolding rebind bind
rebind-find s name other b = (find-assign name other b s.current.bindings, refl, first, second)
  where
    first : (bind s name b).0 ≡ not (bound_in_current_scope s name)
    first = elim (Bool-cases (bound_in_current_scope s name)) [
      | inl bound ↦ rw (bind, bound)
      | inr free ↦ rw (bind, free)
    ]

    second : (bind s name b).1 ≡ (if bound_in_current_scope s name then s else rebind s name b)
    second = elim (Bool-cases (bound_in_current_scope s name)) [
      | inl bound ↦ rw (bind, bound)
      | inr free ↦ rw (bind, free)
    ]
