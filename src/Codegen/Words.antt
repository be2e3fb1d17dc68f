-- ===== src/Codegen/Words.antt =====
-- Which of the scanner's words can be mangled, and that mangling keeps them apart.
use cythonpp.Prelude.{ℕ, ◌≡◌, refl, ap, ◌∙◌, Bool, true, false, ◌&&◌, [], ◌∷◌, ltb, arith}
use cythonpp.Prelude.Text.{Text}
use cythonpp.Lexer.Scanner.Bytes.{is_identifier_start, is_identifier_continue}
use cythonpp.Codegen.{
  is_ascii_letter_or_underscore, is_name_byte, all_bytes, is_manglable_identifier, mangle,
}

abbrev pub is_ascii : ℕ → Bool
is_ascii c = ltb c 0x80

-- A word as the scanner reads it: a start, and bytes that continue it.
abbrev pub is_scanned_word : Text → Bool
is_scanned_word [] = false
is_scanned_word (c ∷ cs) = is_identifier_start c && all_bytes is_identifier_continue cs

name_byte-continue : (c : ℕ) → is_name_byte c ≡ (is_identifier_continue c && is_ascii c)
name_byte-continue c = ground arith

letter-start : (c : ℕ) → is_ascii_letter_or_underscore c ≡ (is_identifier_start c && is_ascii c)
letter-start c = ground arith

and_swap : (a b c d : Bool) → ((a && b) && (c && d)) ≡ ((a && c) && (b && d))
and_swap true true c d = refl
and_swap true false true d = refl
and_swap true false false d = refl
and_swap false b c d = refl

all_bytes-and :
    (p q r : ℕ → Bool)
    → ((c : ℕ) → p c ≡ (q c && r c))
    → (w : Text) → all_bytes p w ≡ (all_bytes q w && all_bytes r w)
unfolding all_bytes
all_bytes-and p q r h [] = refl
all_bytes-and p q r h (c ∷ w) =
    ap (λ b. b && all_bytes p w) (h c)
    ∙ ap (λ b. (q c && r c) && b) (all_bytes-and p q r h w)
    ∙ and_swap (q c) (r c) (all_bytes q w) (all_bytes r w)

absorb : (a b c d : Bool) → (a ≡ true → c ≡ true) → ((a && b) && ((c && b) && d)) ≡ ((a && b) && d)
absorb true true c d h = rw (h refl) refl
absorb true false c d h = refl
absorb false b c d h = refl

start-continue : (c : ℕ) → is_identifier_start c ≡ true → is_identifier_continue c ≡ true
start-continue c h = ground (arith, h)

-- An identifier can be mangled exactly when it is a word of the scanner and all its bytes are ASCII;
-- and two identifiers that mangle alike are one.
pub is_manglable_identifier-mangle :
    (v w : Text)
    → (is_manglable_identifier w ≡ (is_scanned_word w && all_bytes is_ascii w))
      × (mangle v ≡ mangle w → v ≡ w)
unfolding is_manglable_identifier mangle all_bytes
is_manglable_identifier-mangle v w = (scanned w, λ h. cc)
  where
    scanned : (w : Text) → is_manglable_identifier w ≡ (is_scanned_word w && all_bytes is_ascii w)
    scanned [] = refl
    scanned (c ∷ cs) =
        let s = is_identifier_start c in
        let a = is_ascii c in
        let p = all_bytes is_identifier_continue cs in
        let q = all_bytes is_ascii cs in
        ap (λ b. b && (is_name_byte c && all_bytes is_name_byte cs)) (letter-start c)
        ∙ ap (λ b. (s && a) && (b && all_bytes is_name_byte cs)) (name_byte-continue c)
        ∙ ap (λ b. (s && a) && ((is_identifier_continue c && a) && b))
            (all_bytes-and is_name_byte is_identifier_continue is_ascii name_byte-continue cs)
        ∙ absorb s a (is_identifier_continue c) (p && q) (start-continue c)
        ∙ and_swap s a p q
