-- ===== src/Host/Healthy.antt =====
-- Hosts on which no call fails, and the actions that succeed there.
use d2vm.Base.{◌≡◌, refl, String, Bool, true, false, none, List, Result, ok, err, if◌then◌else◌}
use d2vm.Host.{
  Event, Call, Host, World, Exec, pure, asks, continue, ◌>>=◌, handling, branch, deferring, attempt,
  process, system, system_, gets, modify, stat_size, new_uuid_text, run_out, run_no_out, run_debug,
  run, run_command, outputs, finish,
}

-- Every process ends well, and every other call is answered.
pub record Healthy (h : Host) : Type 0 where
  pub process :
      (log : List Event) (c : String) (args : List String) → (h.process log c args).error ≡ none
  pub system : (log : List Event) (call : Call) → (s : String) × (h.system log call ≡ ok s)

pub record Succeeds (h : Host) {M A : Type 0} (m : Exec M A) : Type 0 where
  pub at : (w : World M) → (a : A) × ((m h w).0 ≡ ok a)

module _ (h : Host) {M A : Type 0} where
  pub Succeeds-pure : (a : A) → Succeeds h {M = M} (pure a)
  unfolding pure
  Succeeds-pure a = record { at = λ w. (a, refl) }

  pub Succeeds-asks : (f : Host → A) → Succeeds h {M = M} (asks f)
  unfolding asks
  Succeeds-asks f = record { at = λ w. (f h, refl) }

  pub Succeeds-gets : (f : M → A) → Succeeds h (gets f)
  unfolding gets
  Succeeds-gets f = record { at = λ w. (f w.mem, refl) }

  pub Succeeds-if :
      (b : Bool) (m n : Exec M A) → Succeeds h m → Succeeds h n → Succeeds h (if b then m else n)
  Succeeds-if true m n p q = p
  Succeeds-if false m n p q = q

module _ (h : Host) {M A B : Type 0} where
  continue-Succeeds :
      (r : Result A) (f : A → Exec M B) (w : World M)
      → ((a : A) → Succeeds h (f a))
      → ((a : A) × (r ≡ ok a))
      → (b : B) × ((continue r f h w).0 ≡ ok b)
  continue-Succeeds (ok a) f w k p = (k a).at w
  continue-Succeeds (err x) f w k (a, p) = absurd (cc)

  branch-Succeeds :
      (r : Result A) (f : A → Exec M B) (g : String → Exec M B) (w : World M)
      → ((a : A) → Succeeds h (f a))
      → ((a : A) × (r ≡ ok a))
      → (b : B) × ((branch f g r h w).0 ≡ ok b)
  branch-Succeeds (ok a) f g w k p = (k a).at w
  branch-Succeeds (err x) f g w k (a, p) = absurd (cc)

  pub Succeeds-bind :
      (m : Exec M A) (f : A → Exec M B)
      → Succeeds h m
      → ((a : A) → Succeeds h (f a))
      → Succeeds h (m >>= f)
  unfolding ◌>>=◌
  Succeeds-bind m f p k = record { at = λ w. continue-Succeeds (m h w).0 f (m h w).1 k (p.at w) }

  pub Succeeds-handling :
      (m : Exec M A) (f : A → Exec M B) (g : String → Exec M B)
      → Succeeds h m
      → ((a : A) → Succeeds h (f a))
      → Succeeds h (handling m f g)
  unfolding handling
  Succeeds-handling m f g p k = record {
    at = λ w. branch-Succeeds (m h w).0 f g (m h w).1 k (p.at w);
  }

  pub Succeeds-deferring :
      (late : Exec M B) (m : Exec M A) → Succeeds h m → Succeeds h (deferring late m)
  unfolding deferring
  Succeeds-deferring late m p = record { at = λ w. p.at w }

  pub Succeeds-attempt :
      (m : Exec M A) (f : Result A → Exec M B)
      → ((r : Result A) → Succeeds h (f r))
      → Succeeds h (attempt m f)
  unfolding attempt
  Succeeds-attempt m f k = record { at = λ w. (k (m h w).0).at (m h w).1 }

module _ (h : Host) {M : Type 0} where
  pub Succeeds-modify : (f : M → M) → Succeeds h (modify f)
  unfolding modify
  Succeeds-modify f = record { at = λ w. (tt, refl) }

  pub Succeeds-new_uuid_text : Succeeds h {M = M} new_uuid_text
  unfolding new_uuid_text
  Succeeds-new_uuid_text = record { at = λ w. (h.uuid w.log, refl) }

  pub Succeeds-stat_size : (path : String) → Succeeds h {M = M} (stat_size path)
  unfolding stat_size
  Succeeds-stat_size path = record { at = λ w. (h.size w.log path, refl) }

module _ (h : Host) (healthy : Healthy h) {M : Type 0} where
  pub Succeeds-system : (call : Call) → Succeeds h {M = M} (system call)
  unfolding system
  Succeeds-system call = record { at = λ w. healthy.system w.log call }

  pub Succeeds-system_ : (call : Call) → Succeeds h {M = M} (system_ call)
  unfolding system_
  Succeeds-system_ call = Succeeds-bind h _ _ (Succeeds-system call) λ s. Succeeds-pure h tt

  pub Succeeds-run_out : (c : String) (args : List String) → Succeeds h {M = M} (run_out c args)
  unfolding run_out process outputs ◌>>=◌
  Succeeds-run_out c args = record { at = λ w. rw (healthy.process w.log c args) (_, refl) }

  pub Succeeds-run_no_out :
      (c : String) (args : List String) → Succeeds h {M = M} (run_no_out c args)
  unfolding run_no_out
  Succeeds-run_no_out c args = Succeeds-bind h _ _ (Succeeds-run_out c args) λ s. Succeeds-pure h tt

  pub Succeeds-run_debug : (c : String) (args : List String) → Succeeds h {M = M} (run_debug c args)
  unfolding run_debug process finish ◌>>=◌
  Succeeds-run_debug c args = record { at = λ w. rw (healthy.process w.log c args) (tt, refl) }

  pub Succeeds-run_command :
      (c : String) (args : List String) → Succeeds h {M = M} (run_command c args)
  unfolding run_command process finish ◌>>=◌
  Succeeds-run_command c args = record { at = λ w. rw (healthy.process w.log c args) (tt, refl) }

  pub Succeeds-run : (c : String) (args : List String) → Succeeds h {M = M} (run c args)
  unfolding run
  Succeeds-run c args =
      Succeeds-bind h _ _ (Succeeds-asks h _)
        λ debug. Succeeds-if h debug _ _ (Succeeds-run_debug c args) (Succeeds-run_no_out c args)

pub ruleset succeed_rules = (
  Succeeds-pure, Succeeds-asks, Succeeds-gets, Succeeds-if, Succeeds-bind, Succeeds-handling,
  Succeeds-deferring, Succeeds-attempt, Succeeds-modify, Succeeds-new_uuid_text, Succeeds-stat_size,
  Succeeds-system, Succeeds-system_, Succeeds-run_out, Succeeds-run,
)
