-- ===== src/Semantic/Scopes/Tests.antt =====
-- Scopes with concrete names.
use cythonpp.Prelude.{◌≡◌, refl, true, false, ◌||◌, none}
use cythonpp.Prelude.Text.{text, text_eq}
use cythonpp.Semantic.Kind.{int, str}
use cythonpp.Semantic.PyType.{of_kind}
use cythonpp.Semantic.Scopes.{
  Binding, ScopeStack, declared_binding, placeholder_binding, fill, new_binding, module_only, push,
  pop, rebind, resolve, find, is_some, bound_in_current_scope, bound_in_an_enclosing_scope,
  class_scope, function_scope, assign, find_enclosing,
}
use cythonpp.Semantic.Scopes.Resolve.{visible, resolve-visible}

abbrev an_int : Binding
an_int = declared_binding (of_kind int) 3 3 true false false

-- A method in a class that binds `x`.
abbrev in_method : ScopeStack
in_method = push (rebind (push module_only class_scope) (text "x") an_int) function_scope

resolve-visible_example :
    ((resolve in_method (text "x")).binding ≡ find (text "x") (visible in_method))
    × ((resolve in_method (text "x")).in_own_scope ≡ bound_in_current_scope in_method (text "x"))
    × (is_some (resolve in_method (text "x")).binding ≡ (
        bound_in_current_scope in_method (text "x")
        || bound_in_an_enclosing_scope in_method (text "x")))
resolve-visible_example = resolve-visible in_method (text "x")

-- The class's name is not seen from the method.
class_name_hidden : (resolve in_method (text "x")).binding ≡ none
unfolding resolve find_enclosing find push rebind assign text_eq
class_name_hidden = refl

seen_after_pop : is_some (resolve (pop in_method) (text "x")).binding ≡ true
unfolding resolve find_enclosing find push pop rebind assign text_eq
seen_after_pop = refl

filled : (fill (placeholder_binding 4 5) (of_kind str) true false).bound_at ≡ 4
unfolding fill placeholder_binding new_binding declared_binding
filled = refl
