-- ===== src/Semantic/TypeName/Synthetic.antt =====
-- The key of an isolated class, and the name that is shown for it.
use cythonpp.Prelude.{
  ℕ, ◌≡◌, refl, Bool, true, false, not, ◌&&◌, [], ◌∷◌, ◌++◌, ◌==◌, Bool-cases, inl, inr,
}
use cythonpp.Prelude.Text.{Text, text}
use cythonpp.Semantic.TypeName.{after_byte, after_hashes, strip_synthetic_class_prefix}

unfoldable pub lacks : ℕ → Text → Bool
lacks wanted [] = true
lacks wanted (c ∷ cs) = not (c == wanted) && lacks wanted cs

after_byte-lacks :
    (wanted : ℕ) (v w : Text)
    → lacks wanted v ≡ true
    → after_byte wanted (v ++ w) ≡ after_byte wanted w
unfolding after_byte lacks
after_byte-lacks wanted [] w h = refl
after_byte-lacks wanted (c ∷ v) w h = elim (Bool-cases (c == wanted)) [
  | inl found ↦ let clash : false ≡ true = (rw found at h) in cc
  | inr other ↦ rw other (after_byte-lacks wanted v w (rw other at h))
]

-- A key `<path>#n#name`, with no `>` in the path and no `#` in the number, is shown as its name, and
-- a name that does not start with `<` is shown as it is.
pub strip_synthetic_class_prefix-key :
    (path number name : Text)
    → lacks b'>' path ≡ true
    → lacks b'#' number ≡ true
    → (strip_synthetic_class_prefix (b'<' ∷ (path ++ (text ">#" ++ (number ++ (b'#' ∷ name)))))
        ≡ name)
      × ((c : ℕ) → (c == b'<') ≡ false → strip_synthetic_class_prefix (c ∷ name) ≡ c ∷ name)
unfolding strip_synthetic_class_prefix after_hashes after_byte
strip_synthetic_class_prefix-key path number name h g =
    let closing = after_byte-lacks b'>' path (text ">#" ++ (number ++ (b'#' ∷ name))) h in
    let hashes = after_byte-lacks b'#' number (b'#' ∷ name) g in
    (rw (closing, hashes) refl, λ c e. rw e refl)
