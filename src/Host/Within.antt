-- ===== src/Host/Within.antt =====
-- Actions that may fail half-way, with something taken that nobody gives back: how much that is at
-- most.
use d2vm.Base.{ℕ, ◌+◌, ◌≤◌, ◌≡◌, Bool, true, false, Result, ok, err, if◌then◌else◌, arith}
use d2vm.Base.{String, ◌∷◌}
use d2vm.Host.{with_object, is_ok, Call, Event, Host, World, Exec, continue, ◌>>=◌, deferring}
use d2vm.Host.Rules.{Resource, taken, given, Moves, Balanced}
use d2vm.Host.Logs.{printed}
use mathlib.Core.List.{List}

-- After a success the balance has moved from `down` to `up`; after a failure it has not risen
-- above `most`.
abbrev pub Settled :
    {A : Type 0} → Resource → ℕ → ℕ → ℕ → List Event → List Event → Result A → Type 0
Settled R most down up l l' (ok a) = Moves R up down l l'
Settled R most down up l l' (err e) = taken R l' + given R l + down ≤ given R l' + taken R l + most

pub record Within (R : Resource) {M A : Type 0} (most down up : ℕ) (m : Exec M A) : Type 0 where
  pub at : (h : Host) (w : World M) → Settled R most down up w.log (m h w).1.log (m h w).0

module _ (R : Resource) {A : Type 0} where
  pub Settled-of_Moves :
      (most down up : ℕ) (l l' : List Event) (r : Result A)
      → Moves R up down l l'
      → up ≤ most
      → Settled R most down up l l' r
  Settled-of_Moves most down up l l' (ok a) m h = m
  Settled-of_Moves most down up l l' (err e) m h = omega arith

  Settled-then :
      (most down mid up : ℕ) (l l' l'' : List Event) (r : Result A)
      → Moves R mid down l l'
      → Settled R most mid up l' l'' r
      → Settled R most down up l l'' r
  Settled-then most down mid up l l' l'' (ok a) m s = omega arith
  Settled-then most down mid up l l' l'' (err e) m s = omega arith

  Settled-after :
      (most down up : ℕ) (l l' l'' : List Event) (r : Result A)
      → Settled R most down up l l' r
      → Moves R 0 0 l' l''
      → Settled R most down up l l'' r
  Settled-after most down up l l' l'' (ok a) s m = omega arith
  Settled-after most down up l l' l'' (err e) s m = omega arith

-- One event, that takes if it succeeds.
pub Settled-event :
    (R : Resource) {A : Type 0} (c : Call) (r : Result A) (l : List Event) {l' : List Event}
    {output : String}
    → l' ≡ printed c (is_ok r) output ∷ l
    → R.gives c ≡ false
    → ((o : String) → R.named o ≡ true)
    → Settled R 0 0 (if R.takes c then 1 else 0) l l' r
Settled-event R c (ok a) l {l'} {output} e q plain = rw e (ground (arith, plain output))
Settled-event R c (err x) l e q plain = rw e (ground arith)

module _ {R : Resource} {M A : Type 0} where
  pub Within-of_Balanced :
      (most down : ℕ) (m : Exec M A) → down ≤ most → Balanced R m → Within R most down down m
  Within-of_Balanced most down m le b = record {
    at = λ h w.
        Settled-of_Moves R most down down w.log (m h w).1.log (m h w).0 (omega (arith, b.at h w))
          le;
  }

  pub Within-if :
      {most down up : ℕ} (b : Bool) (m n : Exec M A)
      → Within R most down up m
      → Within R most down up n
      → Within R most down up (if b then m else n)
  Within-if true m n p q = p
  Within-if false m n p q = q

module _ {R : Resource} {M A B : Type 0} (most : ℕ) where
  Settled-continue :
      (down mid up : ℕ) (l : List Event) (r : Result A) (f : A → Exec M B) (h : Host) (w : World M)
      → Settled R most down mid l w.log r
      → ((a : A) → Within R most mid up (f a))
      → Settled R most down up l (continue r f h w).1.log (continue r f h w).0
  Settled-continue down mid up l (ok a) f h w s k =
      Settled-then R most down mid up l w.log (f a h w).1.log (f a h w).0 s ((k a).at h w)
  Settled-continue down mid up l (err e) f h w s k = s

  pub Within-bind :
      (down mid up : ℕ) (m : Exec M A) (f : A → Exec M B)
      → Within R most down mid m
      → ((a : A) → Within R most mid up (f a))
      → Within R most down up (m >>= f)
  unfolding ◌>>=◌
  Within-bind down mid up m f p k = record {
    at = λ h w. Settled-continue down mid up w.log (m h w).0 f h (m h w).1 (p.at h w) k;
  }

  pub Within-deferring :
      (down up : ℕ) (late : Exec M B) (m : Exec M A)
      → Balanced R late
      → Within R most down up m
      → Within R most down up (deferring late m)
  unfolding deferring
  Within-deferring down up late m b p = record {
    at = λ h w.
        Settled-after R most down up w.log (m h w).1.log (late h (m h w).1).1.log (m h w).0
          (p.at h w) (b.at h (m h w).1);
  }

module _ {R : Resource} {M A : Type 0} where
  -- Three rules for actions from nothing held to nothing held.
  pub Within-Balanced : (m : Exec M A) → Balanced R m → Within R 0 0 0 m
  Within-Balanced m b = Within-of_Balanced 0 0 m (omega arith) b

module _ {R : Resource} {M A B : Type 0} where
  pub Within-then :
      (m : Exec M A) (f : A → Exec M B)
      → Within R 0 0 0 m
      → ((a : A) → Within R 0 0 0 (f a))
      → Within R 0 0 0 (m >>= f)
  Within-then m f p k = Within-bind 0 0 0 0 m f p k

  pub Within-late :
      (late : Exec M B) (m : Exec M A)
      → Balanced R late
      → Within R 0 0 0 m
      → Within R 0 0 0 (deferring late m)
  Within-late late m b p = Within-deferring 0 0 0 late m b p

module _ {R : Resource} {M S A : Type 0} where
  pub Within-with_object :
      (s : S) (m : Exec S A) → Within R 0 0 0 m → Within R {M = M} 0 0 0 (with_object s m)
  unfolding with_object
  Within-with_object s m p = record { at = λ h w. p.at h (record { mem = s; log = w.log }) }

pub ruleset within_rules =
    (Within-Balanced, Within-then, Within-late, Within-with_object, Within-if)
