-- ===== src/Semantic/Scopes.antt =====
-- src/domain/semantic/scope_stack.cpp: the scopes of names, and what a name resolves to.
pub mod Resolve
pub mod Tests
use cythonpp.Prelude.{
  ℕ, zero, Bool, true, false, ◌&&◌, ◌||◌, not, Option, none, some, List, [], ◌∷◌, if◌then◌else◌,
}
use cythonpp.Prelude.Text.{Text, text_eq}
use cythonpp.Semantic.Kind.{unknown}
use cythonpp.Semantic.PyType.{PyType, of_kind}

pub data ScopeKind : Type 0 where
  module_scope class_scope function_scope comprehension_scope : ScopeKind

-- Zero stands for a position that is not set.
abbrev pub OrderPosition : Type 0
OrderPosition = ℕ

pub record Binding : Type 0 where
  pub type : PyType
  pub bound_at : OrderPosition
  pub declared_at : ℕ
  pub annotated : Bool
  pub order_exempt : Bool
  pub method_self : Bool
  pub param_names : List Text
  pub loop_start_line : OrderPosition
  pub partial_none : Bool
  pub partial_container : Option PyType
  pub placeholder : Bool

unfoldable pub new_binding : PyType → OrderPosition → ℕ → Bool → Bool → Bool → Bool → Binding
new_binding type bound_at declared_at annotated order_exempt method_self placeholder = record {
  type = type;
  bound_at = bound_at;
  declared_at = declared_at;
  annotated = annotated;
  order_exempt = order_exempt;
  method_self = method_self;
  param_names = [];
  loop_start_line = 0;
  partial_none = false;
  partial_container = none;
  placeholder = placeholder;
}

unfoldable pub placeholder_binding : OrderPosition → ℕ → Binding
unfolding new_binding
placeholder_binding bound_at declared_at =
    new_binding (of_kind unknown) bound_at declared_at false false false true

unfoldable pub declared_binding : PyType → OrderPosition → ℕ → Bool → Bool → Bool → Binding
unfolding new_binding
declared_binding type bound_at declared_at annotated order_exempt method_self =
    new_binding type bound_at declared_at annotated order_exempt method_self false

unfoldable pub fill : Binding → PyType → Bool → Bool → Binding
unfolding new_binding
fill b type annotated order_exempt =
    new_binding type b.bound_at b.declared_at annotated order_exempt false false

-- std::map by an association list.
abbrev pub Bindings : Type 0
Bindings = List (Text × Binding)

unfoldable pub find : Text → Bindings → Option Binding
find name [] = none
find name ((key, b) ∷ rest) =
    let later = find name rest in if text_eq key name then some b else later

abbrev pub is_some {ℓ} : {A : Type ℓ} → Option A → Bool
is_some none = false
is_some (some a) = true

-- `insert_or_assign`
unfoldable pub assign : Text → Binding → Bindings → Bindings
assign name binding [] = (name, binding) ∷ []
assign name binding ((key, b) ∷ rest) =
    let later = assign name binding rest in
    if text_eq key name then (key, binding) ∷ rest else (key, b) ∷ later

pub record Scope : Type 0 where
  pub kind : ScopeKind
  pub bindings : Bindings

-- `scopes_` is never empty: its back, and the others with the next one at the head.
pub record ScopeStack : Type 0 where
  pub current : Scope
  pub enclosing : List Scope

abbrev pub empty_scope : ScopeKind → Scope
empty_scope kind = record { kind = kind; bindings = [] }

abbrev pub module_only : ScopeStack
module_only = record { current = empty_scope module_scope; enclosing = [] }

unfoldable pub push : ScopeStack → ScopeKind → ScopeStack
push s kind = record { current = empty_scope kind; enclosing = s.current ∷ s.enclosing }

-- The module scope is never popped.
unfoldable pub pop : ScopeStack → ScopeStack
pop s = elim s.enclosing [ [] ↦ s | outer ∷ rest ↦ record { current = outer; enclosing = rest } ]

unfoldable pub bound_in_current_scope : ScopeStack → Text → Bool
unfolding find
bound_in_current_scope s name = is_some (find name s.current.bindings)

-- `emplace`: a name that is bound stays as it is. The answer tells whether it was bound here.
unfoldable pub bind : ScopeStack → Text → Binding → Bool × ScopeStack
unfolding assign bound_in_current_scope
bind s name binding = if bound_in_current_scope s name then (false, s) else (
  true,
  record s {
    current = record { kind = s.current.kind; bindings = assign name binding s.current.bindings };
  },
)

unfoldable pub rebind : ScopeStack → Text → Binding → ScopeStack
unfolding assign
rebind s name binding = record s {
  current = record { kind = s.current.kind; bindings = assign name binding s.current.bindings };
}

abbrev pub is_class_scope : ScopeKind → Bool
is_class_scope class_scope = true
is_class_scope _ = false

-- The loop over the enclosing scopes, from the nearest: class scopes are not searched.
unfoldable pub find_enclosing : Text → List Scope → Option Binding
unfolding find
find_enclosing name [] = none
find_enclosing name (scope ∷ rest) =
    let outer = find_enclosing name rest in
    if is_class_scope scope.kind
    then outer
    else elim (find name scope.bindings) [ some b ↦ some b | none ↦ outer ]

pub record Resolution : Type 0 where
  pub binding : Option Binding
  pub in_own_scope : Bool

unfoldable pub resolve : ScopeStack → Text → Resolution
unfolding find_enclosing find
resolve s name = elim (find name s.current.bindings) [
  | some b ↦ record { binding = some b; in_own_scope = true }
  | none ↦ record { binding = find_enclosing name s.enclosing; in_own_scope = false }
]

unfoldable pub bound_outside : Text → List Scope → Bool
unfolding find
bound_outside name [] = false
bound_outside name (scope ∷ rest) =
    let outer = bound_outside name rest in
    if is_class_scope scope.kind
    then outer
    else if is_some (find name scope.bindings)
    then true
    else outer

unfoldable pub bound_in_an_enclosing_scope : ScopeStack → Text → Bool
unfolding bound_outside
bound_in_an_enclosing_scope s name = bound_outside name s.enclosing
