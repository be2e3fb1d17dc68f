-- ===== src/Semantic/Kind.antt =====
-- src/domain/semantic/type_kind.h: the kinds of types, in the order of the enumeration.
pub mod Laws
use cythonpp.Prelude.{ℕ, Bool, ◌==◌}

pub data TypeKind : Type 0 where
  unknown : TypeKind
  none_type bool int float complex str bytes bytearray ellipsis : TypeKind
  list dict set frozenset tuple range : TypeKind
  union callable class : TypeKind
  object : TypeKind

-- The enumerator's position, by which the code compares kinds.
unfoldable pub kind_index : TypeKind → ℕ
kind_index unknown = 0
kind_index none_type = 1
kind_index bool = 2
kind_index int = 3
kind_index float = 4
kind_index complex = 5
kind_index str = 6
kind_index bytes = 7
kind_index bytearray = 8
kind_index ellipsis = 9
kind_index list = 10
kind_index dict = 11
kind_index set = 12
kind_index frozenset = 13
kind_index tuple = 14
kind_index range = 15
kind_index union = 16
kind_index callable = 17
kind_index class = 18
kind_index object = 19

unfoldable pub same_kind : TypeKind → TypeKind → Bool
same_kind a b = kind_index a == kind_index b
