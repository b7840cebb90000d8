-- ===== src/Host/Keeps.antt =====
-- Actions that leave a part of their memory as it is.
use d2vm.Base.{
  String, ◌≡◌, refl, ap, ◌∙◌, Bool, true, false, Option, none, some, List, Result, ok, err,
  if◌then◌else◌,
}
use d2vm.Host.{
  Call, Host, World, Exec, Exit, pure, raise, lift, asks, gets, modify, continue, branch, ◌>>=◌,
  handling, attempt, deferring, process, system, system_, finish, outputs, run_out, run_no_out,
  run_debug, run, stat_size, new_uuid_text,
}

pub record Keeps {M V A : Type 0} (view : M → V) (m : Exec M A) : Type 0 where
  pub at : (h : Host) (w : World M) → view (m h w).1.mem ≡ view w.mem

module _ {M V : Type 0} (view : M → V) {A : Type 0} where
  pub Keeps-pure : (a : A) → Keeps view (pure a)
  unfolding pure
  Keeps-pure a = record { at = λ h w. refl }

  pub Keeps-raise : (e : String) → Keeps {A = A} view (raise e)
  unfolding raise
  Keeps-raise e = record { at = λ h w. refl }

  pub Keeps-lift : (r : Result A) → Keeps view (lift r)
  unfolding lift
  Keeps-lift r = record { at = λ h w. refl }

  pub Keeps-asks : (f : Host → A) → Keeps view (asks f)
  unfolding asks
  Keeps-asks f = record { at = λ h w. refl }

  pub Keeps-gets : (f : M → A) → Keeps view (gets f)
  unfolding gets
  Keeps-gets f = record { at = λ h w. refl }

  pub Keeps-if :
      (b : Bool) (m n : Exec M A) → Keeps view m → Keeps view n → Keeps view (if b then m else n)
  Keeps-if true m n p q = p
  Keeps-if false m n p q = q

module _ {M V : Type 0} (view : M → V) {A B : Type 0} where
  Keeps-continue :
      (r : Result A) (f : A → Exec M B) → ((a : A) → Keeps view (f a)) → Keeps view (continue r f)
  Keeps-continue (ok a) f k = record { at = λ h w. (k a).at h w }
  Keeps-continue (err x) f k = record { at = λ h w. refl }

  pub Keeps-bind :
      (m : Exec M A) (f : A → Exec M B)
      → Keeps view m
      → ((a : A) → Keeps view (f a))
      → Keeps view (m >>= f)
  unfolding ◌>>=◌
  Keeps-bind m f p k = record {
    at = λ h w. (Keeps-continue (m h w).0 f k).at h (m h w).1 ∙ p.at h w;
  }

  Keeps-branch :
      (r : Result A) (f : A → Exec M B) (g : String → Exec M B)
      → ((a : A) → Keeps view (f a))
      → ((e : String) → Keeps view (g e))
      → Keeps view (branch f g r)
  Keeps-branch (ok a) f g k l = k a
  Keeps-branch (err x) f g k l = l x

  pub Keeps-handling :
      (m : Exec M A) (f : A → Exec M B) (g : String → Exec M B)
      → Keeps view m
      → ((a : A) → Keeps view (f a))
      → ((e : String) → Keeps view (g e))
      → Keeps view (handling m f g)
  unfolding handling
  Keeps-handling m f g p k l = record {
    at = λ h w. (Keeps-branch (m h w).0 f g k l).at h (m h w).1 ∙ p.at h w;
  }

  pub Keeps-attempt :
      (m : Exec M A) (f : Result A → Exec M B)
      → Keeps view m
      → ((r : Result A) → Keeps view (f r))
      → Keeps view (attempt m f)
  unfolding attempt
  Keeps-attempt m f p k = record { at = λ h w. (k (m h w).0).at h (m h w).1 ∙ p.at h w }

  pub Keeps-deferring :
      (late : Exec M B) (m : Exec M A)
      → Keeps view late
      → Keeps view m
      → Keeps view (deferring late m)
  unfolding deferring
  Keeps-deferring late m l p = record { at = λ h w. l.at h (m h w).1 ∙ p.at h w }

module _ {M V : Type 0} (view : M → V) where
  pub Keeps-modify : (f : M → M) → ((d : M) → view (f d) ≡ view d) → Keeps view (modify f)
  unfolding modify
  Keeps-modify f same = record { at = λ h w. same w.mem }

  pub Keeps-process : (c : String) (args : List String) → Keeps view (process c args)
  unfolding process
  Keeps-process c args = record { at = λ h w. refl }

  pub Keeps-system : (call : Call) → Keeps view (system call)
  unfolding system
  Keeps-system call = record { at = λ h w. refl }

  pub Keeps-stat_size : (path : String) → Keeps view (stat_size path)
  unfolding stat_size
  Keeps-stat_size path = record { at = λ h w. refl }

  pub Keeps-new_uuid_text : Keeps view new_uuid_text
  unfolding new_uuid_text
  Keeps-new_uuid_text = record { at = λ h w. refl }

  pub Keeps-finish : (o : Option String) → Keeps view (finish o)
  unfolding finish
  Keeps-finish none = Keeps-pure view tt
  Keeps-finish (some x) = Keeps-raise view x

  pub Keeps-outputs :
      (c : String) (args : List String) (e : Exit) (o : Option String)
      → Keeps view (outputs c args e o)
  unfolding outputs
  Keeps-outputs c args e none = Keeps-pure view _
  Keeps-outputs c args e (some x) = Keeps-raise view _

-- What is computed from the part that stays.
pub Keeps-through :
    {M V W A : Type 0} (view : M → V) (f : V → W) (m : Exec M A)
    → Keeps view m
    → Keeps (λ d. f (view d)) m
Keeps-through view f m p = record { at = λ h w. ap f (p.at h w) }

ruleset basic = (
  Keeps-pure, Keeps-raise, Keeps-lift, Keeps-asks, Keeps-gets, Keeps-if, Keeps-bind, Keeps-handling,
  Keeps-attempt, Keeps-deferring, Keeps-process, Keeps-system, Keeps-stat_size, Keeps-new_uuid_text,
  Keeps-finish, Keeps-outputs,
)

module _ {M V : Type 0} (view : M → V) where
  pub Keeps-system_ : (call : Call) → Keeps view (system_ call)
  unfolding system_
  Keeps-system_ call = search basic

  pub Keeps-run_out : (c : String) (args : List String) → Keeps view (run_out c args)
  unfolding run_out
  Keeps-run_out c args = search basic

  pub Keeps-run : (c : String) (args : List String) → Keeps view (run c args)
  unfolding run run_no_out run_out run_debug
  Keeps-run c args = search basic depth 9

pub ruleset keep_rules = (
  Keeps-pure, Keeps-raise, Keeps-lift, Keeps-asks, Keeps-gets, Keeps-if, Keeps-bind, Keeps-handling,
  Keeps-attempt, Keeps-deferring, Keeps-system, Keeps-stat_size, Keeps-new_uuid_text, Keeps-system_,
  Keeps-run_out, Keeps-run,
)
