-- ===== src/Semantic/Narrowing/Tests.antt =====
-- Narrowings at concrete paths.
use cythonpp.Prelude.{◌+◌, ◌≤◌, ◌≡◌, refl, ◌⊎◌, Option, none, some, List, [], ◌∷◌}
use cythonpp.Prelude.Text.{text, text_eq}
use cythonpp.Semantic.Kind.{int, str, object, kind_index}
use cythonpp.Semantic.PyType.{PyType, of_kind, union_of, type_eq}
use cythonpp.Semantic.Subtype.Decided.{size}
use cythonpp.Semantic.Subtype.Chain.{and_also, or_else}
use cythonpp.Semantic.Narrowing.{
  NarrowedPath, NarrowingState, get, kill, collapse_object_union, is_proper_prefix, join_narrowings,
}
use cythonpp.Semantic.Narrowing.Kill.{IsBelow, get-kill}

abbrev entries : NarrowingState
entries =
    record { path = text "self.b.n"; narrowed_type = of_kind int }
    ∷ record { path = text "self.bc"; narrowed_type = of_kind str }
    ∷ []

get-kill_example :
    (((text "self.b.n" ≡ text "self.b") ⊎ IsBelow (text "self.b") (text "self.b.n"))
      → get (kill entries (text "self.b")) (text "self.b.n") ≡ none)
    × ((text "self.b.n" ≡ text "self.b" → ⊥)
        → (IsBelow (text "self.b") (text "self.b.n") → ⊥)
        → get (kill entries (text "self.b")) (text "self.b.n") ≡ get entries (text "self.b.n"))
get-kill_example = get-kill entries (text "self.b") (text "self.b.n")

kill_keeps : get (kill entries (text "self.b")) (text "self.bc") ≡ some (of_kind str)
unfolding get kill is_proper_prefix text_eq
kill_keeps = refl

-- One branch assigns an int to an object, the other a str.
abbrev n : NarrowedPath
n = text "n"

abbrev edges : List NarrowingState
edges =
    (record { path = n; narrowed_type = of_kind int } ∷ [])
    ∷ (record { path = n; narrowed_type = of_kind str } ∷ [])
    ∷ []

abbrev declared : NarrowedPath → Option PyType
declared path = some (of_kind object)

abbrev int_or_string : PyType
int_or_string = union_of (of_kind int ∷ of_kind str ∷ [])

abbrev merged : NarrowingState
merged = record { path = n; narrowed_type = int_or_string } ∷ []

merged_run : join_narrowings 9 none edges declared ≡ some merged
unfolding join_narrowings text_eq and_also kind_index type_eq or_else
merged_run = refl

abbrev IsSmall : List PyType → PyType → Type 0
IsSmall ts d = size (collapse_object_union (union_of ts)) + size d ≤ 9
