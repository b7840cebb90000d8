-- ===== src/Base/Lists.antt =====
-- Lists measured by native numbers, predicates on all members, and tests of all small numbers.
use Prim.Native.Nat.{ℕ, zero, suc, ◌<◌}
use mathlib.Core.Path.{◌≡◌}
use mathlib.Core.Logic.{◌⊎◌, inl, inr}
use native.Mathlib.Omega.{arith}
use mathlib.Core.Bool.{Bool, true, false, ◌&&◌, ◌||◌}
use mathlib.Core.List.{List, [], ◌∷◌, ◌++◌}

module _ {ℓ} {A : Type ℓ} where
  abbrev pub length : List A → ℕ
  length [] = 0
  length (x ∷ xs) = suc (length xs)

  abbrev pub any : (A → Bool) → List A → Bool
  any p [] = false
  any p (x ∷ xs) = p x || any p xs

  abbrev pub all : (A → Bool) → List A → Bool
  all p [] = true
  all p (x ∷ xs) = p x && all p xs

module _ {ℓ κ} {A : Type ℓ} (P : A → Type κ) where
  abbrev pub All : List A → Type κ
  All [] = Unit
  All (x ∷ xs) = P x × All xs

  pub All-append : (xs ys : List A) → All xs → All ys → All (xs ++ ys)
  All-append [] ys _ k = k
  All-append (x ∷ xs) ys (p, h) k = (p, All-append xs ys h k)

lt_or_eq : (d n : ℕ) → d < suc n → (d ≡ n) ⊎ (d < n)
lt_or_eq d n h = omega arith

&&-both : (a b : Bool) → (a && b) ≡ true → (a ≡ true) × (b ≡ true)
&&-both a b e = ground arith

abbrev pub holds_below : (ℕ → Bool) → ℕ → Bool
holds_below test zero = true
holds_below test (suc n) = test n && holds_below test n

pub holds_below-at : (test : ℕ → Bool) (n d : ℕ) → holds_below test n ≡ true → d < n → test d ≡ true
holds_below-at test zero d e h = absurd (omega arith)
holds_below-at test (suc n) d e h =
    let (now, before) = &&-both (test n) (holds_below test n) e in
    elim (lt_or_eq d n (omega arith)) [
      | inl same ↦ rw same now
      | inr less ↦ holds_below-at test n d before less
    ]

-- One of the list is `x`.
abbrev pub Among : {A : Type 0} → A → List A → Type 0
Among x [] = ⊥
Among x (y ∷ ys) = (x ≡ y) ⊎ Among x ys
