-- ===== src/Host/Stays.antt =====
-- What holds of a log for good, since events are only added to it.
use d2vm.Base.{
  String, ◌≡◌, refl, Bool, true, false, Option, none, some, List, ◌∷◌, Result, ok, err,
  if◌then◌else◌,
}
use d2vm.Host.{
  Call, Event, Host, World, Exec, continue, branch, ◌>>=◌, pure, raise, lift, asks, gets, modify,
  handling, attempt, deferring, system, system_, process, finish, run_command,
}
use d2vm.Host.Order.{Leaves}

abbrev pub IsMonotone : (List Event → Type 0) → Type 0
IsMonotone P = (e : Event) (log : List Event) → P log → P (e ∷ log)

-- What holds of the log before the action holds of it afterwards, too.
pub record Stays (P : List Event → Type 0) {M A : Type 0} (m : Exec M A) : Type 0 where
  pub at : (h : Host) (w : World M) → P w.log → P (m h w).1.log

module _ (P : List Event → Type 0) {M A : Type 0} where
  pub Stays-pure : (a : A) → Stays P {M = M} (pure a)
  unfolding pure
  Stays-pure a = record { at = λ h w p. p }

  pub Stays-raise : (e : String) → Stays P {M = M} {A = A} (raise e)
  unfolding raise
  Stays-raise e = record { at = λ h w p. p }

  pub Stays-lift : (r : Result A) → Stays P {M = M} (lift r)
  unfolding lift
  Stays-lift r = record { at = λ h w p. p }

  pub Stays-asks : (f : Host → A) → Stays P {M = M} (asks f)
  unfolding asks
  Stays-asks f = record { at = λ h w p. p }

  pub Stays-gets : (f : M → A) → Stays P (gets f)
  unfolding gets
  Stays-gets f = record { at = λ h w p. p }

  pub Leaves-if :
      (b : Bool) (m n : Exec M A) → Leaves P m → Leaves P n → Leaves P (if b then m else n)
  Leaves-if true m n p q = p
  Leaves-if false m n p q = q

  -- An error is no success.
  pub Leaves-lift_err : (x : String) → Leaves {M = M} {A = A} P (lift (err x))
  unfolding lift
  Leaves-lift_err x = record { at = λ h w a e. absurd (cc) }

  pub Stays-if : (b : Bool) (m n : Exec M A) → Stays P m → Stays P n → Stays P (if b then m else n)
  Stays-if true m n p q = p
  Stays-if false m n p q = q

module _ (P : List Event → Type 0) {M A B : Type 0} where
  Stays-continue :
      (r : Result A) (f : A → Exec M B) → ((a : A) → Stays P (f a)) → Stays P (continue r f)
  Stays-continue (ok a) f k = record { at = λ h w p. (k a).at h w p }
  Stays-continue (err x) f k = record { at = λ h w p. p }

  pub Stays-bind :
      (m : Exec M A) (f : A → Exec M B) → Stays P m → ((a : A) → Stays P (f a)) → Stays P (m >>= f)
  unfolding ◌>>=◌
  Stays-bind m f s k = record {
    at = λ h w p. (Stays-continue (m h w).0 f k).at h (m h w).1 (s.at h w p);
  }

  Stays-branch :
      (r : Result A) (f : A → Exec M B) (g : String → Exec M B)
      → ((a : A) → Stays P (f a))
      → ((e : String) → Stays P (g e))
      → Stays P (branch f g r)
  Stays-branch (ok a) f g k l = k a
  Stays-branch (err x) f g k l = l x

  pub Stays-handling :
      (m : Exec M A) (f : A → Exec M B) (g : String → Exec M B)
      → Stays P m
      → ((a : A) → Stays P (f a))
      → ((e : String) → Stays P (g e))
      → Stays P (handling m f g)
  unfolding handling
  Stays-handling m f g s k l = record {
    at = λ h w p. (Stays-branch (m h w).0 f g k l).at h (m h w).1 (s.at h w p);
  }

  pub Stays-attempt :
      (m : Exec M A) (f : Result A → Exec M B)
      → Stays P m
      → ((r : Result A) → Stays P (f r))
      → Stays P (attempt m f)
  unfolding attempt
  Stays-attempt m f s k = record { at = λ h w p. (k (m h w).0).at h (m h w).1 (s.at h w p) }

  pub Stays-deferring :
      (late : Exec M B) (m : Exec M A) → Stays P late → Stays P m → Stays P (deferring late m)
  unfolding deferring
  Stays-deferring late m l s = record { at = λ h w p. l.at h (m h w).1 (s.at h w p) }

  Leaves-continue :
      (r : Result A) (f : A → Exec M B) (h : Host) (w : World M) (b : B)
      → ((a : A) → Stays P (f a))
      → ((a : A) → r ≡ ok a → P w.log)
      → (continue r f h w).0 ≡ ok b
      → P (continue r f h w).1.log
  Leaves-continue (ok a) f h w b k q e = (k a).at h w (q a refl)
  Leaves-continue (err x) f h w b k q e = absurd (cc)

  -- The first action brings it about, and the rest leaves it.
  pub Leaves-then :
      (m : Exec M A) (f : A → Exec M B)
      → Leaves P m
      → ((a : A) → Stays P (f a))
      → Leaves P (m >>= f)
  unfolding ◌>>=◌
  Leaves-then m f s k = record {
    at = λ h w b e. Leaves-continue (m h w).0 f h (m h w).1 b k (λ a p. s.at h w a p) e;
  }

  Leaves-result :
      (r : Result A) (f : Result A → Exec M B) (h : Host) (w : World M) (b : B)
      → ((a : A) → Stays P (f (ok a)))
      → ((x : String) → Leaves (λ log. ⊥) (f (err x)))
      → ((a : A) → r ≡ ok a → P w.log)
      → (f r h w).0 ≡ ok b
      → P (f r h w).1.log
  Leaves-result (ok a) f h w b k l q e = (k a).at h w (q a refl)
  Leaves-result (err x) f h w b k l q e = absurd ((l x).at h w b e)

  -- What follows leaves it after a success, and never succeeds after an error.
  pub Leaves-attempt :
      (m : Exec M A) (f : Result A → Exec M B)
      → Leaves P m
      → ((a : A) → Stays P (f (ok a)))
      → ((x : String) → Leaves (λ log. ⊥) (f (err x)))
      → Leaves P (attempt m f)
  unfolding attempt
  Leaves-attempt m f s k l = record {
    at = λ h w b e. Leaves-result (m h w).0 f h (m h w).1 b k l (λ a p. s.at h w a p) e;
  }

  Leaves-branch :
      (r : Result A) (f : A → Exec M B) (g : String → Exec M B)
      → ((a : A) → Leaves P (f a))
      → ((e : String) → Leaves P (g e))
      → Leaves P (branch f g r)
  Leaves-branch (ok a) f g k l = k a
  Leaves-branch (err x) f g k l = l x

  pub Leaves-handling :
      (m : Exec M A) (f : A → Exec M B) (g : String → Exec M B)
      → ((a : A) → Leaves P (f a))
      → ((e : String) → Leaves P (g e))
      → Leaves P (handling m f g)
  unfolding handling
  Leaves-handling m f g k l = record {
    at = λ h w b e. (Leaves-branch (m h w).0 f g k l).at h (m h w).1 b e;
  }

  pub Leaves-deferring :
      (late : Exec M B) (m : Exec M A) → Stays P late → Leaves P m → Leaves P (deferring late m)
  unfolding deferring
  Leaves-deferring late m l s = record { at = λ h w a e. l.at h (m h w).1 (s.at h w a e) }

module _ (P : List Event → Type 0) (grows : IsMonotone P) {M : Type 0} where
  pub Stays-modify : (f : M → M) → Stays P (modify f)
  unfolding modify
  Stays-modify f = record { at = λ h w p. p }

  pub Stays-system : (call : Call) → Stays P {M = M} (system call)
  unfolding system
  Stays-system call = record { at = λ h w p. grows _ w.log p }

  pub Stays-system_ : (call : Call) → Stays P {M = M} (system_ call)
  unfolding system_
  Stays-system_ call = Stays-bind P _ _ (Stays-system call) λ s. Stays-pure P tt

  Stays-finish : (o : Option String) → Stays P {M = M} (finish o)
  unfolding finish
  Stays-finish none = Stays-pure P tt
  Stays-finish (some x) = Stays-raise P x

  pub Stays-run_command : (c : String) (args : List String) → Stays P {M = M} (run_command c args)
  unfolding run_command process
  Stays-run_command c args =
      Stays-bind P _ _ (record { at = λ h w p. grows _ w.log p }) λ e. Stays-finish e.error

pub ruleset stay_rules = (
  Stays-pure, Stays-raise, Stays-lift, Stays-asks, Stays-gets, Stays-if, Stays-bind, Stays-handling,
  Stays-attempt, Stays-deferring, Stays-modify, Stays-system, Stays-system_, Stays-run_command,
)
