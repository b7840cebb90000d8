-- ===== src/Host/Debts.antt =====
-- Actions that leave something taken when they succeed, for a later action to give back.
use d2vm.Base.{ℕ, ◌≡◌, refl, Result, ok, err, arith}
use d2vm.Host.{Host, World, Exec, pure, gets, continue, ◌>>=◌, deferring}
use d2vm.Host.Rules.{Resource, Moves, Balanced}

-- What is owed after a result: nothing after an error.
abbrev pub due : {A : Type 0} → (A → ℕ) → Result A → ℕ
due up (ok a) = up a
due up (err e) = 0

-- From a state in which `down` is owed, a success with `a` owes `up a`, and a failure owes nothing.
pub record Owes (R : Resource) {M A : Type 0} (down : ℕ) (up : A → ℕ) (m : Exec M A) : Type 0 where
  pub at : (h : Host) (w : World M) → Moves R (due up (m h w).0) down w.log (m h w).1.log

abbrev pub nothing : {A : Type 0} → A → ℕ
nothing a = 0

pub due-nothing : {A : Type 0} (r : Result A) → due nothing r ≡ 0
due-nothing (ok a) = refl
due-nothing (err e) = refl

module _ {R : Resource} {M A : Type 0} where
  pub Owes-Balanced : (m : Exec M A) → Balanced R m → Owes R 0 nothing m
  Owes-Balanced m b = record { at = λ h w. omega (arith, b.at h w, due-nothing (m h w).0) }

  pub Balanced-Owes : (m : Exec M A) → Owes R 0 nothing m → Balanced R m
  Balanced-Owes m b = record { at = λ h w. omega (arith, b.at h w, due-nothing (m h w).0) }

  pub Owes-pure : (up : A → ℕ) (a : A) → Owes R {M = M} (up a) up (pure a)
  unfolding ◌>>=◌
  Owes-pure up a = record { at = λ h w. omega arith }

module _ {R : Resource} {M A B : Type 0} (up : A → ℕ) (up' : B → ℕ) where
  Owes-continue :
      (r : Result A) (f : A → Exec M B)
      → ((a : A) → Owes R (up a) up' (f a))
      → Owes R (due up r) up' (continue r f)
  Owes-continue (ok a) f k = record { at = λ h w. (k a).at h w }
  Owes-continue (err e) f k = record { at = λ h w. omega arith }

  pub Owes-bind :
      (down : ℕ) (m : Exec M A) (f : A → Exec M B)
      → Owes R down up m
      → ((a : A) → Owes R (up a) up' (f a))
      → Owes R down up' (m >>= f)
  unfolding ◌>>=◌
  Owes-bind down m f p k = record {
    at = λ h w. omega (arith, p.at h w, (Owes-continue (m h w).0 f k).at h (m h w).1);
  }

module _ {R : Resource} {M A B : Type 0} where
  -- What the deferred action gives back, it gives back on every path.
  pub Owes-deferring :
      (down : ℕ) (late : Exec M B) (m : Exec M A)
      → Owes R down nothing late
      → Balanced R m
      → Owes R down nothing (deferring late m)
  unfolding deferring
  Owes-deferring down late m p b = record {
    at = λ h w. omega (
      arith,
      b.at h w,
      p.at h (m h w).1,
      due-nothing (late h (m h w).1).0,
      due-nothing (m h w).0,
    );
  }

module _ {R : Resource} {M A : Type 0} where
  -- Reading the state cannot fail.
  pub Owes-gets : (n : ℕ) (f : M → A) → Owes R n (λ _. n) (gets f)
  unfolding gets
  Owes-gets n f = record { at = λ h w. omega arith }
