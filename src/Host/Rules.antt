-- ===== src/Host/Rules.antt =====
-- Rules for the actions of `Exec`: which resources an action takes and gives back, as its log
-- shows.
use d2vm.Base.{
  ℕ, ◌+◌, String, ◌≡◌, Bool, true, false, ◌&&◌, Option, none, some, List, [], ◌∷◌, Result, ok, err,
  if◌then◌else◌, arith,
}
use d2vm.Host.{
  random_bytes, read_random, combined_of, run_combined, run_command, with_object, handling, branch,
  new_uuid, new_uuid_text, gets, modify,
}
use d2vm.Host.{
  Call, command, Event, Exit, Host, World, Exec, pure, raise, lift, asks, continue, ◌>>=◌,
  deferring, attempt, process, system, system_, stat_size, finish, outputs, run_out, run_no_out,
  run,
}

-- Calls that take something (mount a directory, open a device) and calls that give it back. What
-- a call takes may be named by what it prints: `named` says whether an output is the name.
pub record Resource : Type 0 where
  pub takes : Call → Bool
  pub named : String → Bool
  pub gives : Call → Bool

module _ (R : Resource) where
  -- How often it was taken: only a call that succeeded counts.
  abbrev pub taken : List Event → ℕ
  taken [] = 0
  taken (e ∷ log) = (if e.done && (R.takes e.call && R.named e.output) then 1 else 0) + taken log

  -- How often it was given back: an attempt counts.
  abbrev pub given : List Event → ℕ
  given [] = 0
  given (e ∷ log) = (if R.gives e.call then 1 else 0) + given log

  -- On the way from one log to another, `up` more were taken than `down` more were given back.
  abbrev pub Moves : ℕ → ℕ → List Event → List Event → Type 0
  Moves up down l l' = taken l' + given l + down ≡ given l' + taken l + up

  -- The action gives back as much as it takes, whether it succeeds or fails.
  pub record Balanced {M A : Type 0} (m : Exec M A) : Type 0 where
    pub at : (h : Host) (w : World M) → Moves 0 0 w.log (m h w).1.log

  -- Neither taken nor given back.
  abbrev pub Quiet : Call → Type 0
  Quiet c = (R.takes c ≡ false) × (R.gives c ≡ false)

module _ {R : Resource} {M A : Type 0} where
  pub Balanced-pure : (a : A) → Balanced R {M = M} (pure a)
  unfolding pure
  Balanced-pure a = record { at = λ h w. omega arith }

  pub Balanced-raise : (e : String) → Balanced R {M = M} {A = A} (raise e)
  unfolding raise
  Balanced-raise e = record { at = λ h w. omega arith }

  pub Balanced-lift : (r : Result A) → Balanced R {M = M} (lift r)
  unfolding lift
  Balanced-lift r = record { at = λ h w. omega arith }

  pub Balanced-asks : (f : Host → A) → Balanced R {M = M} (asks f)
  unfolding asks
  Balanced-asks f = record { at = λ h w. omega arith }

  pub Balanced-if :
      (b : Bool) (m n : Exec M A) → Balanced R m → Balanced R n → Balanced R (if b then m else n)
  Balanced-if true m n p q = p
  Balanced-if false m n p q = q

module _ {R : Resource} {M A B : Type 0} where
  Balanced-continue :
      (r : Result A) (f : A → Exec M B) → ((a : A) → Balanced R (f a)) → Balanced R (continue r f)
  Balanced-continue (ok a) f k = record { at = λ h w. (k a).at h w }
  Balanced-continue (err e) f k = record { at = λ h w. omega arith }

  pub Balanced-bind :
      (m : Exec M A) (f : A → Exec M B)
      → Balanced R m
      → ((a : A) → Balanced R (f a))
      → Balanced R (m >>= f)
  unfolding ◌>>=◌
  Balanced-bind m f p k = record {
    at = λ h w. omega (arith, p.at h w, (Balanced-continue (m h w).0 f k).at h (m h w).1);
  }

  pub Balanced-deferring :
      (late : Exec M B) (m : Exec M A)
      → Balanced R late
      → Balanced R m
      → Balanced R (deferring late m)
  unfolding deferring
  Balanced-deferring late m p q = record { at = λ h w. omega (arith, q.at h w, p.at h (m h w).1) }

  pub Balanced-attempt :
      (m : Exec M A) (f : Result A → Exec M B)
      → Balanced R m
      → ((r : Result A) → Balanced R (f r))
      → Balanced R (attempt m f)
  unfolding attempt
  Balanced-attempt m f p k = record {
    at = λ h w. omega (arith, p.at h w, (k (m h w).0).at h (m h w).1);
  }

module _ {R : Resource} {M A B : Type 0} where
  pub Balanced-handling :
      (m : Exec M A) (f : A → Exec M B) (g : String → Exec M B)
      → Balanced R m
      → ((a : A) → Balanced R (f a))
      → ((e : String) → Balanced R (g e))
      → Balanced R (handling m f g)
  unfolding handling
  Balanced-handling m f g b p q = record {
    at = λ h w. omega (arith, b.at h w, (either (m h w).0).at h (m h w).1);
  }
    where
      either : (r : Result A) → Balanced R (branch f g r)
      either (ok a) = p a
      either (err e) = q e

module _ {R : Resource} {M : Type 0} where
  pub Balanced-process :
      (c : String) (args : List String)
      → Quiet R (command c args)
      → Balanced R {M = M} (process c args)
  unfolding process
  Balanced-process c args q = record { at = λ h w. ground arith }

  pub Balanced-system : (c : Call) → Quiet R c → Balanced R {M = M} (system c)
  unfolding system
  Balanced-system c q = record { at = λ h w. ground arith }

  pub Balanced-stat_size : (p : String) → Balanced R {M = M} (stat_size p)
  unfolding stat_size
  Balanced-stat_size p = record { at = λ h w. omega arith }

  pub Balanced-new_uuid_text : Quiet R new_uuid → Balanced R {M = M} new_uuid_text
  unfolding new_uuid_text
  Balanced-new_uuid_text q = record { at = λ h w. ground arith }

  pub Balanced-gets : {A : Type 0} (f : M → A) → Balanced R (gets f)
  unfolding gets
  Balanced-gets f = record { at = λ h w. omega arith }

  pub Balanced-modify : (f : M → M) → Balanced R (modify f)
  unfolding modify
  Balanced-modify f = record { at = λ h w. omega arith }

  pub Balanced-finish : (o : Option String) → Balanced R {M = M} (finish o)
  unfolding finish
  Balanced-finish none = Balanced-pure tt
  Balanced-finish (some e) = Balanced-raise e

  pub Balanced-outputs :
      (c : String) (args : List String) (e : Exit) (o : Option String)
      → Balanced R {M = M} (outputs c args e o)
  unfolding outputs
  Balanced-outputs c args e none = Balanced-pure _
  Balanced-outputs c args e (some x) = Balanced-raise _

  pub Balanced-combined_of : (e : Exit) (o : Option String) → Balanced R {M = M} (combined_of e o)
  unfolding combined_of
  Balanced-combined_of e none = Balanced-pure _
  Balanced-combined_of e (some x) = Balanced-raise _

  pub Balanced-read_random : (n : ℕ) → Quiet R (random_bytes n) → Balanced R {M = M} (read_random n)
  unfolding read_random
  Balanced-read_random n q = record { at = λ h w. ground arith }

pub ruleset basic = (
  Balanced-pure, Balanced-raise, Balanced-lift, Balanced-asks, Balanced-if, Balanced-bind,
  Balanced-process, Balanced-system, Balanced-finish, Balanced-outputs, Balanced-new_uuid_text,
  Balanced-gets, Balanced-modify, Balanced-combined_of, Balanced-read_random,
)

module _ {R : Resource} {M : Type 0} where
  pub Balanced-system_ : (c : Call) → Quiet R c → Balanced R {M = M} (system_ c)
  unfolding system_
  Balanced-system_ c q = search basic

  pub Balanced-run_out :
      (c : String) (args : List String)
      → Quiet R (command c args)
      → Balanced R {M = M} (run_out c args)
  unfolding run_out
  Balanced-run_out c args q = search basic

  pub Balanced-run_no_out :
      (c : String) (args : List String)
      → Quiet R (command c args)
      → Balanced R {M = M} (run_no_out c args)
  unfolding run_no_out
  Balanced-run_no_out c args q = search basic

  pub Balanced-run :
      (c : String) (args : List String) → Quiet R (command c args) → Balanced R {M = M} (run c args)
  unfolding run
  Balanced-run c args q = search basic

  pub Balanced-run_command :
      (c : String) (args : List String)
      → Quiet R (command c args)
      → Balanced R {M = M} (run_command c args)
  unfolding run_command
  Balanced-run_command c args q = search basic

  pub Balanced-run_combined :
      (c : String) (args : List String)
      → Quiet R (command c args)
      → Balanced R {M = M} (run_combined c args)
  unfolding run_combined
  Balanced-run_combined c args q = search basic

module _ {R : Resource} {M S A : Type 0} where
  pub Balanced-with_object :
      (s : S) (m : Exec S A) → Balanced R m → Balanced R {M = M} (with_object s m)
  unfolding with_object
  Balanced-with_object s m b = record { at = λ h w. b.at h (record { mem = s; log = w.log }) }

pub ruleset balance_rules = (
  Balanced-run_command, Balanced-run_combined, Balanced-with_object, basic, Balanced-handling,
  Balanced-deferring, Balanced-attempt, Balanced-stat_size, Balanced-system_, Balanced-run_out,
  Balanced-run,
)
