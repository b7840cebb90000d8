-- ===== src/Text/Splits.antt =====
-- strings.Split, SplitN and Join on texts whose parts do not hold the separator.
use text.Mathlib.TextLemmas.{nil-append, cons-append}
use d2vm.Base.{
  ℕ, Char, code, String, ◌<>◌, ◌≡◌, refl, ap, Bool, true, not, ◌&&◌, some, List, [], ◌∷◌, eqb, All,
  arith, ◌∙◌,
}
use d2vm.Text.{single, split, split_in_two, cut, join}

-- The text does not hold the character with the given code.
abbrev pub is_free : ℕ → String → Bool
is_free sep String.[] = true
is_free sep (String.◌∷◌ c s) = not (eqb (code c) sep) && is_free sep s

pub single-append : (c : Char) (s : String) → single c <> s ≡ String.◌∷◌ c s
single-append c s = rw (cons-append c "" s) (rw (nil-append s) refl)

pub split-free : (sep : ℕ) (s : String) → is_free sep s ≡ true → split sep s ≡ s ∷ []
unfolding split
split-free sep String.[] f = refl
split-free sep (String.◌∷◌ c s) f = ground (arith, split-free sep s)

split-cons :
    (c : Char) (s t : String)
    → is_free (code c) s ≡ true
    → split (code c) (s <> String.◌∷◌ c t) ≡ s ∷ split (code c) t
unfolding split
split-cons c String.[] t f = rw (nil-append (String.◌∷◌ c t)) (ground arith)
split-cons c (String.◌∷◌ d s) t f =
    rw (cons-append d s (String.◌∷◌ c t)) (ground (arith, split-cons c s t))

-- Up to the first separator.
pub split-append :
    (c : Char) (s t : String)
    → is_free (code c) s ≡ true
    → split (code c) (s <> (single c <> t)) ≡ s ∷ split (code c) t
split-append c s t f = rw (single-append c t) (split-cons c s t f)

pub split-join :
    (c : Char) (s : String) (parts : List String)
    → All (λ s. is_free (code c) s ≡ true) (s ∷ parts)
    → split (code c) (join (s ∷ parts) (single c)) ≡ s ∷ parts
unfolding join
split-join c s [] (f, _) = split-free (code c) s f
split-join c s (t ∷ parts) (f, rest) =
    split-append c s (join (t ∷ parts) (single c)) f ∙ ap (◌∷◌ s) (split-join c t parts rest)

cut-cons :
    (c : Char) (s t : String)
    → is_free (code c) s ≡ true
    → cut (code c) (s <> String.◌∷◌ c t) ≡ some (s, t)
unfolding cut
cut-cons c String.[] t f = rw (nil-append (String.◌∷◌ c t)) (ground arith)
cut-cons c (String.◌∷◌ d s) t f =
    rw (cons-append d s (String.◌∷◌ c t)) (ground (arith, cut-cons c s t))

-- The value may hold further separators.
pub split_in_two-append :
    (c : Char) (key value : String)
    → is_free (code c) key ≡ true
    → split_in_two (code c) (key <> (single c <> value)) ≡ key ∷ value ∷ []
unfolding split_in_two
split_in_two-append c key value f =
    rw (single-append c value) (rw (cut-cons c key value f, split_in_two) refl)

pub is_free-append :
    (sep : ℕ) (s t : String)
    → is_free sep s ≡ true
    → is_free sep t ≡ true
    → is_free sep (s <> t) ≡ true
is_free-append sep String.[] t f g = rw (nil-append t) g
is_free-append sep (String.◌∷◌ c s) t f g =
    rw (cons-append c s t) (ground (arith, is_free-append sep s t))
