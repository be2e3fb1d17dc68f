-- ===== src/Semantic/Subtype/Rules.antt =====
-- The declarative relation that `is_subtype` decides where no class table is given: when a value of
-- one type may be used where another is expected, without an order of the rules.
use cythonpp.Prelude.{ℕ, ◌≤◌, ◌<◌, ◌≡◌, true, false}
use cythonpp.Prelude.Text.{Text, text}
use cythonpp.Semantic.Kind.{TypeKind, unknown, union, callable, class, object, tuple}
use cythonpp.Semantic.PyType.{PyType, Types, make, nil, cons, has_kind}
use cythonpp.Semantic.Subtype.{numeric_rank, is_invariant_container}

mutual
  pub data Sub : PyType → PyType → Type 0 where
    from_unknown : (s t : PyType) → has_kind unknown s ≡ true → Sub s t
    into_unknown : (s t : PyType) → has_kind unknown t ≡ true → Sub s t
    reflexive : (s t : PyType) → s ≡ t → Sub s t
    into_object : (s t : PyType) → has_kind object t ≡ true → Sub s t
    from_union :
        (n : Text) (ms : Types) (d : ℕ) (t : PyType) → EachSub ms t → Sub (make union n ms d) t
    into_union :
        (s : PyType) (n : Text) (ms : Types) (d : ℕ)
        → has_kind union s ≡ false
        → SomeSub s ms
        → Sub s (make union n ms d)
    functions :
        (n m : Text) (ss ts : Types) (d e : ℕ)
        → FunctionSub ss ts
        → Sub (make callable n ss d) (make callable m ts e)
    class_objects :
        (n : Text) (ss ts : Types) (d e : ℕ)
        → Sub (make callable n ss d) (make class (text "type") ts e)
    wider :
        (k l : TypeKind) (n m : Text) (ss ts : Types) (d e : ℕ)
        → 0 < numeric_rank k
        → numeric_rank k ≤ numeric_rank l
        → Sub (make k n ss d) (make l m ts e)
    same_elements :
        (k : TypeKind) (n m : Text) (ss ts : Types) (d e : ℕ)
        → is_invariant_container k ≡ true
        → BothSub ss ts
        → Sub (make k n ss d) (make k m ts e)
    tuples :
        (n m : Text) (ss ts : Types) (d e : ℕ)
        → PairSub ss ts
        → Sub (make tuple n ss d) (make tuple m ts e)

  -- Every member is usable.
  pub data EachSub : Types → PyType → Type 0 where
    each_nil : (t : PyType) → EachSub nil t
    each_cons :
        (m : PyType) (ms : Types) (t : PyType) → Sub m t → EachSub ms t → EachSub (cons m ms) t

  -- Some member accepts.
  pub data SomeSub : PyType → Types → Type 0 where
    some_here : (s m : PyType) (ms : Types) → Sub s m → SomeSub s (cons m ms)
    some_there : (s m : PyType) (ms : Types) → SomeSub s ms → SomeSub s (cons m ms)

  -- Parameters backwards, the result, which is last, forwards.
  pub data FunctionSub : Types → Types → Type 0 where
    result : (s t : PyType) → Sub s t → FunctionSub (cons s nil) (cons t nil)
    parameter :
        (s s' t t' : PyType) (ss ts : Types)
        → Sub t s
        → FunctionSub (cons s' ss) (cons t' ts)
        → FunctionSub (cons s (cons s' ss)) (cons t (cons t' ts))

  -- Elementwise, both ways.
  pub data BothSub : Types → Types → Type 0 where
    both_nil : BothSub nil nil
    both_cons :
        (s t : PyType) (ss ts : Types)
        → Sub s t
        → Sub t s
        → BothSub ss ts
        → BothSub (cons s ss) (cons t ts)

  -- Elementwise.
  pub data PairSub : Types → Types → Type 0 where
    pair_nil : PairSub nil nil
    pair_cons :
        (s t : PyType) (ss ts : Types) → Sub s t → PairSub ss ts → PairSub (cons s ss) (cons t ts)
