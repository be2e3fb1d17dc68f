-- ===== src/Runtime/Fail.antt =====
-- runtime/cythonpp/fail.h: a condition that the runtime cannot represent ends the program with a
-- message and exit code 1. The model returns the message in place of exiting. `undefined_operation` is
-- no message: it stands where C++ gives an operation no meaning, and no guarded operation returns it.

pub data Failure : Type 0 where
  overflow_error zero_division_error not_implemented_error undefined_operation : Failure

pub data Result {ℓ} (A : Type ℓ) : Type ℓ where
  ok : A → Result A
  fail : Failure → Result A

infixl 5 ◌>>=◌
abbrev pub ◌>>=◌ {ℓ κ} : {A : Type ℓ} {B : Type κ} → Result A → (A → Result B) → Result B
ok a >>= f = f a
fail e >>= f = fail e
