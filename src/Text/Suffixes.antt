-- ===== src/Text/Suffixes.antt =====
-- strings.TrimSuffix and strings.HasSuffix on a text with something behind it.
use text.Mathlib.TextLemmas.{nil-append, cons-append, length-append, length-cons}
use Prim.Native.String.{count}
use d2vm.Base.{
  ◌≤◌, Char, String, ◌<>◌, ◌≡◌, refl, ap, false, ◌==◌, Bool-cases, inl, inr, eq_iff, eq_refl, none,
  some, arith,
}
use d2vm.Text.{strip_suffix?}

longer-false : (c : Char) (s q : String) → count q ≤ count s → (String.◌∷◌ c s == q) ≡ false
longer-false c s q h = elim (Bool-cases (String.◌∷◌ c s == q)) [
  | inl e ↦ absurd (omega (arith, ap count ((eq_iff (String.◌∷◌ c s) q).0 e), length-cons c s, h))
  | inr e ↦ e
]

strip_longer-some :
    (c : Char) (s q front : String)
    → count q ≤ count s
    → strip_suffix? s q ≡ some front
    → strip_suffix? (String.◌∷◌ c s) q ≡ some (String.◌∷◌ c front)
unfolding strip_suffix?
strip_longer-some c s q front h e = rw (longer-false c s q h) (rw e refl)

strip_longer-none :
    (c : Char) (s q : String)
    → count q ≤ count s
    → strip_suffix? s q ≡ none
    → strip_suffix? (String.◌∷◌ c s) q ≡ none
unfolding strip_suffix?
strip_longer-none c s q h e = rw (longer-false c s q h) (rw e refl)

strip_self : (p : String) → strip_suffix? p p ≡ some ""
unfolding strip_suffix?
strip_self String.[] = refl
strip_self (String.◌∷◌ c p) = rw (eq_refl (String.◌∷◌ c p)) refl

pub strip_suffix?-append : (s p : String) → strip_suffix? (s <> p) p ≡ some s
strip_suffix?-append String.[] p = rw (nil-append p) (strip_self p)
strip_suffix?-append (String.◌∷◌ c s) p =
    rw (cons-append c s p) (
      strip_longer-some c (s <> p) p s (omega (arith, length-append s p))
        (strip_suffix?-append s p))

-- What is not the suffix of the last part is not the suffix of the whole.
pub strip_suffix?-none :
    (s p q : String)
    → strip_suffix? p q ≡ none
    → count q ≤ count p
    → strip_suffix? (s <> p) q ≡ none
strip_suffix?-none String.[] p q e h = rw (nil-append p) e
strip_suffix?-none (String.◌∷◌ c s) p q e h = rw (cons-append c s p) (
    strip_longer-none c (s <> p) q (omega (arith, length-append s p))
      (strip_suffix?-none s p q e h))
