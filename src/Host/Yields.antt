-- ===== src/Host/Yields.antt =====
-- What holds of the value that an action returns.
use mathlib.Core.Path.{subst}
use d2vm.Base.{String, ◌≡◌, refl, Result, ok, err}
use d2vm.Host.{Host, World, Exec, pure, raise, lift, continue, ◌>>=◌}

-- Every value that the action returns satisfies `Q`.
pub record Yields {M A : Type 0} (Q : A → Type 0) (m : Exec M A) : Type 0 where
  pub at : (h : Host) (w : World M) (a : A) → (m h w).0 ≡ ok a → Q a

module _ {M A : Type 0} (Q : A → Type 0) where
  pub Yields-pure : (a : A) → Q a → Yields {M = M} Q (pure a)
  unfolding pure
  Yields-pure a q = record { at = λ h w b e. subst Q (cc) q }

  pub Yields-lift : (r : Result A) → ((a : A) → r ≡ ok a → Q a) → Yields {M = M} Q (lift r)
  unfolding lift
  Yields-lift r k = record { at = λ h w a e. k a e }

  pub Yields-raise : (e : String) → Yields {M = M} Q (raise e)
  unfolding raise
  Yields-raise e = record { at = λ h w b p. cc }

module _ {M A B : Type 0} (Q : B → Type 0) where
  Yields-continue :
      (r : Result A) (f : A → Exec M B) (h : Host) (w : World M) (b : B)
      → ((a : A) → r ≡ ok a → Yields Q (f a))
      → (continue r f h w).0 ≡ ok b
      → Q b
  Yields-continue (ok a) f h w b k e = (k a refl).at h w b e
  Yields-continue (err x) f h w b k e = cc

  -- What came before the last action does not matter.
  pub Yields-bind :
      (m : Exec M A) (f : A → Exec M B) → ((a : A) → Yields Q (f a)) → Yields Q (m >>= f)
  unfolding ◌>>=◌
  Yields-bind m f k = record {
    at = λ h w b e. Yields-continue (m h w).0 f h (m h w).1 b (λ a _. k a) e;
  }

  -- The rest of the block may use what the first action's value satisfies.
  pub Yields-bind_with :
      (P : A → Type 0) (m : Exec M A) (f : A → Exec M B)
      → Yields P m
      → ((a : A) → P a → Yields Q (f a))
      → Yields Q (m >>= f)
  unfolding ◌>>=◌
  Yields-bind_with P m f p k = record {
    at = λ h w b e. Yields-continue (m h w).0 f h (m h w).1 b (λ a q. k a (p.at h w a q)) e;
  }

  -- The rest of the block may use that the test before it passed.
  pub Yields-bind_lift :
      (r : Result A) (f : A → Exec M B)
      → ((a : A) → r ≡ ok a → Yields Q (f a))
      → Yields Q (lift r >>= f)
  unfolding ◌>>=◌
  Yields-bind_lift r f k = record { at = λ h w b e. Yields-continue r f h w b k e }
