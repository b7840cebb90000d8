-- ===== src/Text/Numbers/RoundTrip.antt =====
-- What is printed as a decimal number is read back.
use Prim.Native.String.{char_at}
use text.Mathlib.TextLemmas.{cons-ne-nil}
use mathlib.Core.Logic.{ite, dite}
use mathlib.Core.WellFounded
use mathlib.Core.WellFounded.{Acc, Acc-prop}
use native.Mathlib.Decide.{dec_lt}
use d2vm.Base.{
  holds_below-at, ℕ, zero, suc, ◌+◌, ◌-◌, ◌*◌, ◌/◌, ◌%◌, ◌<◌, ◌≤◌, ◌^◌, Char, code, String, ◌≡◌,
  refl, true, false, none, some, eqb, ◌⊎◌, ◌≢◌, sym, ◌∙◌, inl, inr, ◌==◌, Bool-cases, eq_iff, arith,
}
use d2vm.Text.{strip_suffix?}
use d2vm.Text.Splits.{is_free}
use d2vm.Text.Numbers.{
  pos, lt_wf, digit, digits_onto, decimal, is_digit, scan, parse_uint, atoi, below, as_pos,
}

code-digit : (d : ℕ) → d < 10 → code (digit d) ≡ b'0' + d
unfolding digit
code-digit d h = ground (arith, holds_below-at (λ d. eqb (code (digit d)) (b'0' + d)) 10 d refl h)

-- Any two proofs of `Acc` are equal.
onto_step :
    (n : ℕ) (a : Acc ◌<◌ n) (a' : Acc ◌<◌ (n / 10)) (out : String)
    → digits_onto n a out
      ≡ ite (dec_lt 0 n) (digits_onto (n / 10) a' (String.◌∷◌ (digit (n % 10)) out)) out
unfolding digits_onto
onto_step n (Acc.intro _ smaller) a' out = λ i.
    dite (dec_lt 0 n)
      (λ h.
        digits_onto (n / 10) (Acc-prop (smaller (n / 10) (omega arith)) a' i)
          (String.◌∷◌ (digit (n % 10)) out))
      (λ _. out)

digits : ℕ → String → String
digits n = digits_onto n (lt_wf.apply n)

digits_step :
    (n : ℕ) (out : String)
    → digits n out ≡ ite (dec_lt 0 n) (digits (n / 10) (String.◌∷◌ (digit (n % 10)) out)) out
unfolding digits
digits_step n out = onto_step n (lt_wf.apply n) (lt_wf.apply (n / 10)) out

digits_more :
    (n : ℕ) (out : String)
    → digits (suc n) out ≡ digits (suc n / 10) (String.◌∷◌ (digit (suc n % 10)) out)
digits_more n out = ground (arith, digits_step (suc n) out)

digits_none : (out : String) → digits 0 out ≡ out
digits_none out = ground (arith, digits_step 0 out)

scan_last : (n : ℕ) (out : String) → scan (String.◌∷◌ (digit (n % 10)) out) (n / 10) ≡ scan out n
unfolding scan is_digit
scan_last n out = ground (arith, code-digit (n % 10) (omega arith))

scan-digits : (n : ℕ) (out : String) → scan (digits n out) 0 ≡ scan out n
scan-digits n =
    WellFounded.induction lt_wf {C = λ m. (out : String) → scan (digits m out) 0 ≡ scan out m} n
      λ m ih out. grind (arith, digits_step m out, scan_last m out, ih (m / 10))

-- A text whose first character is a digit.
record Leading (s : String) : Type 0 where
  c : Char
  rest : String
  same : s ≡ String.◌∷◌ c rest
  least : b'0' ≤ code c
  greatest : code c ≤ b'9'

Leading-digit : (n : ℕ) (out : String) → Leading (String.◌∷◌ (digit (n % 10)) out)
Leading-digit n out = record {
  c = digit (n % 10);
  rest = out;
  same = refl;
  least = omega (arith, code-digit (n % 10) (omega arith));
  greatest = omega (arith, code-digit (n % 10) (omega arith));
}

digits-Leading : (n : ℕ) (out : String) → Leading out → Leading (digits n out)
digits-Leading n =
    WellFounded.induction lt_wf {C = λ m. (out : String) → Leading out → Leading (digits m out)} n
      step
  where
    step :
        (m : ℕ) (ih : (k : ℕ) → k < m → (out : String) → Leading out → Leading (digits k out))
        (out : String)
        → Leading out
        → Leading (digits m out)
    step zero ih out l = rw (digits_none out) l
    step (suc m) ih out l =
        rw (digits_more m out) (ih (suc m / 10) (omega arith) _ (Leading-digit (suc m) out))

decimal-digits : (n : ℕ) → 0 < n → decimal n ≡ digits n ""
unfolding decimal digits
decimal-digits n h = ground arith

decimal-Leading : (n : ℕ) → Leading (decimal n)
unfolding decimal
decimal-Leading zero = record {
  c = char_at "0" 0;
  rest = "";
  same = refl;
  least = omega arith;
  greatest = omega arith;
}
decimal-Leading (suc n) =
    rw (decimal-digits (suc n) (omega arith))
      (rw (digits_more n "") (digits-Leading (suc n / 10) _ (Leading-digit (suc n) "")))

scan-decimal : (n : ℕ) → scan (decimal n) 0 ≡ some n
unfolding scan decimal is_digit
scan-decimal zero = refl
scan-decimal (suc n) = rw (decimal-digits (suc n) (omega arith)) (rw (scan-digits (suc n) "") refl)

parse_uint-scan : (most : ℕ) (s : String) → Leading s → parse_uint most s ≡ below most (scan s 0)
unfolding parse_uint
parse_uint-scan most s l = rw l.same refl

-- strconv.ParseUint reads back what %d prints.
pub parse_uint-decimal : (most n : ℕ) → n ≤ most → parse_uint most (decimal n) ≡ some n
parse_uint-decimal most n h =
    rw (parse_uint-scan most (decimal n) (decimal-Leading n)) (rw (scan-decimal n) (ground arith))

atoi-Leading : (s : String) → Leading s → atoi s ≡ as_pos (parse_uint (2 ^ 63 - 1) s)
unfolding atoi
atoi-Leading s l = rw l.same (ground (arith, l.least, l.greatest))

pub atoi-decimal : (n : ℕ) → n < 2 ^ 63 → atoi (decimal n) ≡ some (pos n)
atoi-decimal n h =
    rw (atoi-Leading (decimal n) (decimal-Leading n))
      (rw (parse_uint-decimal (2 ^ 63 - 1) n (omega arith)) refl)

-- What is read as digits holds no other character.
scan-free :
    (sep : ℕ) (s : String) (n m : ℕ)
    → (sep < b'0') ⊎ (b'9' < sep)
    → scan s n ≡ some m
    → is_free sep s ≡ true
unfolding scan is_digit
scan-free sep String.[] n m out e = refl
scan-free sep (String.◌∷◌ c s) n m out e =
    ground (arith, scan-free sep s (n * 10 + (code c - b'0')) m out)

pub decimal-free : (sep n : ℕ) → (sep < b'0') ⊎ (b'9' < sep) → is_free sep (decimal n) ≡ true
decimal-free sep n out = scan-free sep (decimal n) 0 n out (scan-decimal n)

scan-differs :
    (q s : String) (n m : ℕ) → ((n : ℕ) → scan q n ≡ none) → scan s n ≡ some m → (s == q) ≡ false
scan-differs q s n m never e = elim (Bool-cases (s == q)) [
  | inl same ↦ absurd (grind (arith, (eq_iff s q).0 same, never n))
  | inr other ↦ other
]

scan-tail :
    (c : Char) (s : String) (n m : ℕ)
    → scan (String.◌∷◌ c s) n ≡ some m
    → scan s (n * 10 + (code c - b'0')) ≡ some m
unfolding scan is_digit
scan-tail c s n m e = ground arith

-- Nor does it end with such a text.
scan-strip :
    (q s : String) (n m : ℕ)
    → ((n : ℕ) → scan q n ≡ none)
    → scan s n ≡ some m
    → strip_suffix? s q ≡ none
unfolding scan strip_suffix?
scan-strip q String.[] n m never e = rw (scan-differs q "" n m never e) refl
scan-strip q (String.◌∷◌ c s) n m never e =
    rw (scan-differs q (String.◌∷◌ c s) n m never e)
      (rw (scan-strip q s (n * 10 + (code c - b'0')) m never (scan-tail c s n m e)) refl)

pub decimal-strip :
    (q : String) (n : ℕ) → ((n : ℕ) → scan q n ≡ none) → strip_suffix? (decimal n) q ≡ none
decimal-strip q n never = scan-strip q (decimal n) 0 n never (scan-decimal n)

pub decimal-ne-nil : (n : ℕ) → decimal n ≢ ""
decimal-ne-nil n e = cons-ne-nil _ _ (sym (decimal-Leading n).same ∙ e)
