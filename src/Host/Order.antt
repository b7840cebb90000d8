-- ===== src/Host/Order.antt =====
-- What holds of the log when an action has succeeded.
use d2vm.Base.{String, ◌≡◌, Option, none, some, List, [], ◌∷◌, Result, ok, err}
use d2vm.Host.{Call, Event, Host, World, Exec, continue, ◌>>=◌, raise}

abbrev pub last_call : List Event → Option Call
last_call [] = none
last_call (e ∷ log) = some e.call

pub record Leaves {M A : Type 0} (P : List Event → Type 0) (m : Exec M A) : Type 0 where
  pub at : (h : Host) (w : World M) (a : A) → (m h w).0 ≡ ok a → P (m h w).1.log

module _ {M A B : Type 0} (P : List Event → Type 0) where
  Leaves-continue :
      (r : Result A) (f : A → Exec M B) (h : Host) (w : World M) (b : B)
      → ((a : A) → Leaves P (f a))
      → (continue r f h w).0 ≡ ok b
      → P (continue r f h w).1.log
  Leaves-continue (ok a) f h w b k e = (k a).at h w b e
  Leaves-continue (err x) f h w b k e = cc

  -- The last action decides.
  pub Leaves-bind :
      (m : Exec M A) (f : A → Exec M B) → ((a : A) → Leaves P (f a)) → Leaves P (m >>= f)
  unfolding ◌>>=◌
  Leaves-bind m f k = record { at = λ h w b e. Leaves-continue (m h w).0 f h (m h w).1 b k e }

pub Leaves-raise :
    {M A : Type 0} (P : List Event → Type 0) (e : String) → Leaves {M = M} {A = A} P (raise e)
unfolding raise
Leaves-raise P e = record { at = λ h w a p. absurd (cc) }
