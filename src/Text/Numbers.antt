-- ===== src/Text/Numbers.antt =====
-- strconv and the %d of fmt, over the native numbers.
pub mod RoundTrip
use Prim.Native.String.{char_at}
use mathlib.Core.Logic.{dite}
use mathlib.Core.WellFounded.{Acc, WellFounded}
use native.Mathlib.Decide.{dec_lt}
use d2vm.Base.{
  ℕ, zero, suc, ◌+◌, ◌-◌, ◌*◌, ◌/◌, ◌%◌, ◌^◌, ◌<◌, Char, code, String, ◌≡◌, refl, Bool, ◌&&◌,
  Option, none, some, leb, eqb, if◌then◌else◌, arith,
}

-- Go's int: `negsuc n` is -(n + 1).
pub data ℤ : Type 0 where
  pos : ℕ → ℤ
  negsuc : ℕ → ℤ

acc_below : (k n : ℕ) → n < k → Acc ◌<◌ n
acc_below zero n h = elim h [ ]
acc_below (suc k) n h = Acc.intro n (λ m lt. acc_below k m (omega arith))

unfoldable pub lt_wf : WellFounded ◌<◌
unfolding acc_below
lt_wf = record { apply = λ n. acc_below (suc n) n (omega arith) }

pub digit : ℕ → Char
digit d = char_at "0123456789" d

-- The digits of a positive number, written in front of `out`.
pub digits_onto : (n : ℕ) → Acc ◌<◌ n → String → String
digits_onto n (Acc.intro _ smaller) out =
    dite (dec_lt 0 n)
      (λ h. digits_onto (n / 10) (smaller (n / 10) (omega arith)) (String.◌∷◌ (digit (n % 10)) out))
      (λ _. out)

-- %d and strconv.Itoa of a number that is not negative.
unfoldable pub decimal : ℕ → String
unfolding digit digits_onto lt_wf dec_lt
decimal n = if eqb n 0 then "0" else digits_onto n (lt_wf.apply n) ""

unfoldable pub decimal_int : ℤ → String
unfolding decimal
decimal_int (pos n) = decimal n
decimal_int (negsuc n) = String.◌∷◌ (char_at "-" 0) (decimal (n + 1))

pub is_digit : Char → Bool
is_digit c = leb b'0' (code c) && leb (code c) b'9'

-- The digits of strconv.ParseUint in base 10: `none` at a character that is no digit.
unfoldable pub scan : String → ℕ → Option ℕ
unfolding is_digit
scan String.[] n = some n
scan (String.◌∷◌ c s) n =
    let rest = scan s (n * 10 + (code c - b'0')) in if is_digit c then rest else none

-- A text with no digits, or a value above the greatest one, is an error.
abbrev below : ℕ → Option ℕ → Option ℕ
below most none = none
below most (some n) = if leb n most then some n else none

-- strconv.ParseUint in base 10, with the greatest value of the type.
unfoldable pub parse_uint : ℕ → String → Option ℕ
unfolding scan
parse_uint most String.[] = none
parse_uint most (String.◌∷◌ c s) = below most (scan (String.◌∷◌ c s) 0)

abbrev negate : ℕ → ℤ
negate zero = pos 0
negate (suc n) = negsuc n

abbrev as_pos : Option ℕ → Option ℤ
as_pos none = none
as_pos (some n) = some (pos n)

abbrev as_neg : Option ℕ → Option ℤ
as_neg none = none
as_neg (some n) = some (negate n)

-- strconv.Atoi for a 64 bit int: an optional sign, then digits.
unfoldable pub atoi : String → Option ℤ
unfolding parse_uint
atoi String.[] = none
atoi (String.◌∷◌ c s) =
    if eqb (code c) b'-'
    then as_neg (parse_uint (2 ^ 63) s)
    else if eqb (code c) b'+'
    then as_pos (parse_uint (2 ^ 63 - 1) s)
    else as_pos (parse_uint (2 ^ 63 - 1) (String.◌∷◌ c s))

decimal_test : decimal 10240 ≡ "10240"
unfolding decimal
decimal_test = refl

atoi_test :
    (atoi "-12" ≡ some (negsuc 11))
    × (atoi "9223372036854775808" ≡ none)
    × (atoi "+7" ≡ some (pos 7))
unfolding atoi
atoi_test = (refl, refl, refl)
