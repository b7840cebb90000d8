-- ===== src/Host/Gives.antt =====
-- Actions that succeed on a host, with a value of which something is known.
use mathlib.Core.Path.{subst}
use d2vm.Base.{String, ◌≡◌, refl, sym, List, Result, ok, err}
use d2vm.Host.{
  Event, Host, World, Exec, pure, lift, asks, process, outputs, run_out, continue, ◌>>=◌,
}
use d2vm.Host.Healthy.{Healthy, Succeeds}

pub record Gives (h : Host) {M A : Type 0} (P : A → Type 0) (m : Exec M A) : Type 0 where
  pub at : (w : World M) → (a : A) × ((m h w).0 ≡ ok a) × P a

module _ (h : Host) {M A : Type 0} where
  pub Gives-Succeeds : (P : A → Type 0) (m : Exec M A) → Gives h P m → Succeeds h m
  Gives-Succeeds P m g = record { at = λ w. let (a, e, p) = g.at w in (a, e) }

  pub Succeeds-Gives : (m : Exec M A) → Succeeds h m → Gives h (λ a. Unit {0}) m
  Succeeds-Gives m s = record { at = λ w. let (a, e) = s.at w in (a, e, tt) }

  pub Gives-pure : (P : A → Type 0) (a : A) → P a → Gives h {M = M} P (pure a)
  unfolding pure
  Gives-pure P a p = record { at = λ w. (a, refl, p) }

  pub Gives-lift : (r : Result A) (a : A) → r ≡ ok a → Gives h {M = M} (λ b. b ≡ a) (lift r)
  unfolding lift
  Gives-lift r a e = record { at = λ w. (a, e, refl) }

module _ (h : Host) {M A B : Type 0} (Q : B → Type 0) where
  continue-Gives :
      (P : A → Type 0) (r : Result A) (f : A → Exec M B) (w : World M)
      → ((a : A) → P a → Gives h Q (f a))
      → ((a : A) × (r ≡ ok a) × P a)
      → (b : B) × ((continue r f h w).0 ≡ ok b) × Q b
  continue-Gives P (ok a) f w k (b, e, p) = (k a (subst P (cc) p)).at w
  continue-Gives P (err x) f w k (b, e, p) = absurd (cc)

  pub Gives-bind :
      (P : A → Type 0) (m : Exec M A) (f : A → Exec M B)
      → Gives h P m
      → ((a : A) → P a → Gives h Q (f a))
      → Gives h Q (m >>= f)
  unfolding ◌>>=◌
  Gives-bind P m f p k = record { at = λ w. continue-Gives P (m h w).0 f (m h w).1 k (p.at w) }

  -- What the first action returns does not matter.
  pub Gives-then :
      (m : Exec M A) (f : A → Exec M B)
      → Succeeds h m
      → ((a : A) → Gives h Q (f a))
      → Gives h Q (m >>= f)
  Gives-then m f p k = Gives-bind (λ a. Unit {0}) m f (Succeeds-Gives h m p) λ a _. k a

  -- The test before the rest of the block passes.
  pub Gives-lift_then :
      (r : Result A) (a : A) (f : A → Exec M B)
      → r ≡ ok a
      → Gives h Q (f a)
      → Gives h Q (lift r >>= f)
  Gives-lift_then r a f e g =
      Gives-bind (λ b. b ≡ a) (lift r) f (Gives-lift h r a e)
        λ b same. subst (λ b. Gives h Q (f b)) (sym same) g

  -- The action after a question to the host.
  pub Gives-asks_then :
      (g : Host → A) (f : A → Exec M B) → Gives h Q (f (g h)) → Gives h Q (asks g >>= f)
  unfolding asks ◌>>=◌
  Gives-asks_then g f p = record { at = λ w. p.at w }

module _ (h : Host) {M A B : Type 0} where
  pub Succeeds-asks_then :
      (g : Host → A) (f : A → Exec M B) → Succeeds h (f (g h)) → Succeeds h (asks g >>= f)
  unfolding asks ◌>>=◌
  Succeeds-asks_then g f p = record { at = λ w. p.at w }

  -- The test before the rest of the block passes.
  pub Succeeds-lift_then :
      (r : Result A) (a : A) (f : A → Exec M B)
      → r ≡ ok a
      → Succeeds h (f a)
      → Succeeds h (lift r >>= f)
  unfolding lift ◌>>=◌
  Succeeds-lift_then r a f e p = record { at = λ w. rw e (p.at w) }

  pub Succeeds-bind_Gives :
      (P : A → Type 0) (m : Exec M A) (f : A → Exec M B)
      → Gives h P m
      → ((a : A) → P a → Succeeds h (f a))
      → Succeeds h (m >>= f)
  Succeeds-bind_Gives P m f p k =
      Gives-Succeeds h (λ b. Unit {0}) (m >>= f)
        (Gives-bind h (λ b. Unit {0}) P m f p λ a q. Succeeds-Gives h (f a) (k a q))

module _ (h : Host) (healthy : Healthy h) {M : Type 0} where
  -- What a process prints is what the host says for some log.
  pub Gives-run_out :
      (c : String) (args : List String)
      → Gives h {M = M}
          (λ o. (log : List Event) × (o.0 ≡ (h.process log c args).stdout))
          (run_out c args)
  unfolding run_out process outputs ◌>>=◌
  Gives-run_out c args = record {
    at = λ w. rw (healthy.process w.log c args) (_, refl, (w.log, refl));
  }
