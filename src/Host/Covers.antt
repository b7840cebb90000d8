-- ===== src/Host/Covers.antt =====
-- Actions that try to give back at least as much as they take, on every path.
use d2vm.Base.{ℕ, ◌+◌, ◌≤◌, Bool, true, false, List, Result, ok, err, if◌then◌else◌, arith}
use d2vm.Host.{Event, Host, World, Exec, continue, ◌>>=◌, deferring, attempt}
use d2vm.Host.Rules.{Resource, taken, given, Balanced}
use d2vm.Host.Within.{Within, Settled}

pub record Covers (R : Resource) {M A : Type 0} (m : Exec M A) : Type 0 where
  pub at :
      (h : Host) (w : World M)
      → taken R (m h w).1.log + given R w.log ≤ given R (m h w).1.log + taken R w.log

-- Gives back `n`, on every path.
pub record Gives (R : Resource) (n : ℕ) {M A : Type 0} (m : Exec M A) : Type 0 where
  pub at :
      (h : Host) (w : World M)
      → taken R (m h w).1.log + given R w.log + n ≤ given R (m h w).1.log + taken R w.log

module _ {R : Resource} {M A : Type 0} where
  pub Covers-Balanced : (m : Exec M A) → Balanced R m → Covers R m
  Covers-Balanced m b = record { at = λ h w. omega (arith, b.at h w) }

  pub Covers-Gives : (n : ℕ) (m : Exec M A) → Gives R n m → Covers R m
  Covers-Gives n m g = record { at = λ h w. omega (arith, g.at h w) }

  pub Covers-if :
      (b : Bool) (m n : Exec M A) → Covers R m → Covers R n → Covers R (if b then m else n)
  Covers-if true m n p q = p
  Covers-if false m n p q = q

module _ {R : Resource} {M A B : Type 0} where
  Covers-continue :
      (r : Result A) (f : A → Exec M B) → ((a : A) → Covers R (f a)) → Covers R (continue r f)
  Covers-continue (ok a) f k = record { at = λ h w. (k a).at h w }
  Covers-continue (err e) f k = record { at = λ h w. omega arith }

  pub Covers-bind :
      (m : Exec M A) (f : A → Exec M B)
      → Covers R m
      → ((a : A) → Covers R (f a))
      → Covers R (m >>= f)
  unfolding ◌>>=◌
  Covers-bind m f p k = record {
    at = λ h w. omega (arith, p.at h w, (Covers-continue (m h w).0 f k).at h (m h w).1);
  }

  pub Covers-deferring :
      (late : Exec M B) (m : Exec M A) → Covers R late → Covers R m → Covers R (deferring late m)
  unfolding deferring
  Covers-deferring late m p q = record { at = λ h w. omega (arith, q.at h w, p.at h (m h w).1) }

  pub Covers-attempt :
      (m : Exec M A) (f : Result A → Exec M B)
      → Covers R m
      → ((r : Result A) → Covers R (f r))
      → Covers R (attempt m f)
  unfolding attempt
  Covers-attempt m f p k = record {
    at = λ h w. omega (arith, p.at h w, (k (m h w).0).at h (m h w).1);
  }

  pub Gives-bind :
      (n : ℕ) (m : Exec M A) (f : A → Exec M B)
      → Gives R n m
      → ((a : A) → Covers R (f a))
      → Gives R n (m >>= f)
  unfolding ◌>>=◌
  Gives-bind n m f p k = record {
    at = λ h w. omega (arith, p.at h w, (Covers-continue (m h w).0 f k).at h (m h w).1);
  }

module _ {R : Resource} {M A B C : Type 0} (n : ℕ) where
  Covers-held_continue :
      (r : Result A) (late : Exec M C) (rest : A → Exec M B) (h : Host) (w : World M)
      (l : List Event)
      → Gives R n late
      → ((a : A) → Covers R (rest a))
      → Settled R 0 0 n l w.log r
      → taken R (continue r (λ a. deferring late (rest a)) h w).1.log + given R l
        ≤ given R (continue r (λ a. deferring late (rest a)) h w).1.log + taken R l
  unfolding deferring
  Covers-held_continue (ok a) late rest h w l g k s =
      omega (arith, (k a).at h w, g.at h (rest a h w).1)
  Covers-held_continue (err e) late rest h w l g k s = omega arith

  -- What the first action takes, the deferred one gives back.
  pub Covers-held :
      (m : Exec M A) (late : Exec M C) (rest : A → Exec M B)
      → Within R 0 0 n m
      → Gives R n late
      → ((a : A) → Covers R (rest a))
      → Covers R (m >>= λ a. deferring late (rest a))
  unfolding ◌>>=◌
  Covers-held m late rest t g k = record {
    at = λ h w. Covers-held_continue (m h w).0 late rest h (m h w).1 w.log g k (t.at h w);
  }

pub ruleset cover_rules =
    (Covers-Balanced, Covers-if, Covers-bind, Covers-deferring, Covers-attempt)
