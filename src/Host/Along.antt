-- ===== src/Host/Along.antt =====
-- Actions that take things whose names they keep in their memory, and may fail half-way.
use mathlib.Core.Path.{subst}
use native.Mathlib.Nat.{add-zero}
use d2vm.Base.{
  sym, Bool, true, not, ℕ, ◌+◌, ◌≤◌, String, ◌≡◌, refl, Option, none, some, false, ◌&&◌, List, ◌∷◌,
  Result, ok, err, if◌then◌else◌, arith,
}
use d2vm.Host.{
  Event, Exit, command, Host, World, Exec, is_ok, is_none, add_process, continue, ◌>>=◌, deferring,
  gets, modify, run, run_out, outputs, process, pure, raise,
}
use d2vm.Host.Rules.{Resource, Moves, Balanced}
use d2vm.Host.Logs.{printed, log-run, mem-run}
use d2vm.Host.Debts.{due}
use d2vm.Host.Within.{Settled}
use d2vm.Host.Keeps.{Keeps}

-- From a memory in which `down` is owed: a success with `a` owes `up a` in the new memory, and after
-- a failure no more is owed than `most` in the new memory.
pub record Along (R : Resource) {M A : Type 0} (most down : M → ℕ) (up : A → M → ℕ) (m : Exec M A)
    : Type 0 where
  pub at :
      (h : Host) (w : World M)
      → Settled R
          (most (m h w).1.mem)
          (down w.mem)
          (due (λ a. up a (m h w).1.mem) (m h w).0)
          w.log
          (m h w).1.log
          (m h w).0

module _ {R : Resource} {M A B : Type 0} (most down : M → ℕ) where
  Along-continue :
      (mid : A → M → ℕ) (up : B → M → ℕ) (r : Result A) (f : A → Exec M B) (h : Host) (w : World M)
      (l : List Event) (n : ℕ)
      → Settled R (most w.mem) n (due (λ a. mid a w.mem) r) l w.log r
      → ((a : A) → Along R most (mid a) up (f a))
      → Settled R
          (most (continue r f h w).1.mem)
          n
          (due (λ b. up b (continue r f h w).1.mem) (continue r f h w).0)
          l
          (continue r f h w).1.log
          (continue r f h w).0
  Along-continue mid up (ok a) f h w l n s k =
      join (f a h w).0 (most (f a h w).1.mem) (due (λ b. up b (f a h w).1.mem) (f a h w).0)
        (mid a w.mem) (f a h w).1.log s ((k a).at h w)
    where
      join :
          (r : Result B) (most up mid : ℕ) (l'' : List Event)
          → Moves R mid n l w.log
          → Settled R most mid up w.log l'' r
          → Settled R most n up l l'' r
      join (ok b) most up mid l'' p q = omega arith
      join (err x) most up mid l'' p q = omega arith
  Along-continue mid up (err x) f h w l n s k = s

  pub Along-bind :
      (mid : A → M → ℕ) (up : B → M → ℕ) (m : Exec M A) (f : A → Exec M B)
      → Along R most down mid m
      → ((a : A) → Along R most (mid a) up (f a))
      → Along R most down up (m >>= f)
  unfolding ◌>>=◌
  Along-bind mid up m f p k = record {
    at = λ h w. Along-continue mid up (m h w).0 f h (m h w).1 w.log (down w.mem) (p.at h w) k;
  }

Settled-same :
    {A : Type 0} (R : Resource) (most down up : ℕ) (l l' : List Event) (r : Result A)
    → Moves R 0 0 l l'
    → due (λ _. up) r ≡ due (λ _. down) r
    → down ≤ most
    → Settled R most down (due (λ _. up) r) l l' r
Settled-same R most down up l l' (ok a) m e le = omega arith
Settled-same R most down up l l' (err x) m e le = omega arith

module _ {R : Resource} {M A : Type 0} (most down : M → ℕ) where
  -- Neither taken nor given back, and what is owed stays the same.
  pub Along-same :
      (m : Exec M A)
      → ((d : M) → down d ≤ most d)
      → Balanced R m
      → Keeps down m
      → Along R most down (λ _. down) m
  Along-same m le b same = record {
    at = λ h w.
        Settled-same R (most (m h w).1.mem) (down w.mem) (down (m h w).1.mem) w.log (m h w).1.log
          (m h w).0 (b.at h w) (equal h w (m h w).0) (rw (← same.at h w) (le (m h w).1.mem));
  }
    where
      equal :
          (h : Host) (w : World M) (r : Result A)
          → due (λ _. down (m h w).1.mem) r ≡ due (λ _. down w.mem) r
      equal h w (ok a) = same.at h w
      equal h w (err x) = refl

Settled-late :
    {A : Type 0} (R : Resource) (most' n up : ℕ) (r : Result A) (l l' l'' : List Event)
    → Settled R most' n up l l' r
    → Moves R 0 0 l' l''
    → Settled R most' n up l l'' r
Settled-late R most' n up (ok a) l l' l'' s m = omega arith
Settled-late R most' n up (err x) l l' l'' s m = omega arith

module _ {R : Resource} {M A B : Type 0} (most down : M → ℕ) where
  pub Along-skip :
      (up : B → M → ℕ) (m : Exec M A) (f : A → Exec M B)
      → ((d : M) → down d ≤ most d)
      → Balanced R m
      → Keeps down m
      → ((a : A) → Along R most down up (f a))
      → Along R most down up (m >>= f)
  Along-skip up m f le b same k =
      Along-bind most down (λ _. down) up m f (Along-same most down m le b same) k

  pub Along-deferring :
      (up : M → ℕ) (late : Exec M B) (m : Exec M A)
      → Balanced R late
      → ((h : Host) (w : World M) → (late h w).1.mem ≡ w.mem)
      → Along R most down (λ _. up) m
      → Along R most down (λ _. up) (deferring late m)
  unfolding deferring
  Along-deferring up late m b same p = record {
    at = λ h w. rw (same h (m h w).1) (
        Settled-late R (most (m h w).1.mem) (down w.mem) (due (λ _. up (m h w).1.mem) (m h w).0)
          (m h w).0 w.log (m h w).1.log (late h (m h w).1).1.log (p.at h w) (b.at h (m h w).1));
  }

module _ {R : Resource} {M : Type 0} (most down up : M → ℕ) where
  -- The memory gets a new name for what is owed.
  pub Along-modify :
      (f : M → M) → ((d : M) → up (f d) ≡ down d) → Along R most down (λ _. up) (modify f)
  unfolding modify
  Along-modify f same = record { at = λ h w. omega (arith, same w.mem) }

module _ {R : Resource} {M A B : Type 0} (most down : M → ℕ) where
  -- A part of the memory is read, and stays until the end.
  pub Along-gets :
      (up : A → M → ℕ) (f : M → A) (g : A → Exec M B)
      → ((a : A) → Along R most down (λ _. up a) (g a))
      → ((a : A) → Keeps f (g a))
      → Along R most down (λ _ d. up (f d) d) (gets f >>= g)
  unfolding gets ◌>>=◌
  Along-gets up f g p same = record {
    at = λ h w.
        let w' = (g (f w.mem) h w).1 in
        let r = (g (f w.mem) h w).0 in
        subst (λ a. Settled R (most w'.mem) (down w.mem) (due (λ _. up a w'.mem) r) w.log w'.log r)
          (sym ((same (f w.mem)).at h w)) ((p (f w.mem)).at h w);
  }

module _ {R : Resource} {M A : Type 0} (most down : M → ℕ) where
  -- The second action runs only if the test passes.
  pub Along-unless :
      (b : Bool) (more : ℕ) (m n : Exec M A)
      → Along R most down (λ _. down) m
      → (b ≡ true → Along R most down (λ _ d. down d + more) n)
      → Along R most down (λ _ d. down d + (if b then more else 0)) (if not b then m else n)
  Along-unless true more m n p q = q refl
  Along-unless false more m n p q = record {
    at = λ h w. rw (add-zero (down (m h w).1.mem)) (p.at h w);
  }

  -- Which action runs, and what it takes, depends on a test.
  pub Along-choice :
      (b : Bool) (up up' : M → ℕ) (m n : Exec M A)
      → (b ≡ true → Along R most down (λ _. up) m)
      → (b ≡ false → Along R most down (λ _. up') n)
      → Along R most down (λ _ d. if b then up d else up' d) (if b then m else n)
  Along-choice true up up' m n p q = p refl
  Along-choice false up up' m n p q = q refl

-- What a process takes, if it succeeds.
abbrev pub cost : Resource → String → List String → ℕ
cost R c args = if R.takes (command c args) then 1 else 0

Settled-run :
    (R : Resource) (c : String) (args : List String) (most n : ℕ) (r : Result (Unit {0}))
    (output : String) (l : List Event) {l' : List Event}
    → n ≤ most
    → R.gives (command c args) ≡ false
    → ((R.takes (command c args) && R.named output) ≡ R.takes (command c args))
    → l' ≡ printed (command c args) (is_ok r) output ∷ l
    → Settled R most n (due (λ _. n + cost R c args) r) l l' r
Settled-run R c args most n (ok a) output l le keeps plain e = rw e (ground arith)
Settled-run R c args most n (err x) output l le keeps plain e = rw e (ground arith)

module _ {R : Resource} {M : Type 0} (most down : M → ℕ) (c : String) (args : List String) where
  -- A process whose output names nothing.
  pub Along-run :
      ((d : M) → down d ≤ most d)
      → R.gives (command c args) ≡ false
      → ((o : String) → (R.takes (command c args) && R.named o) ≡ R.takes (command c args))
      → Along R most down (λ _ d. down d + cost R c args) (run c args)
  Along-run le keeps plain = record {
    at = λ h w. rw (mem-run c args h w) (
        Settled-run R c args (most w.mem) (down w.mem) (run c args h w).0
          (h.process w.log c args).stdout w.log (le w.mem) keeps (plain _) (log-run c args h w));
  }

-- What a process takes under the name that it prints.
abbrev pub cost_of : Resource → String → List String → String → ℕ
cost_of R c args output = if R.takes (command c args) && R.named output then 1 else 0

outputs-mem :
    {M : Type 0} (c : String) (args : List String) (e : Exit) (o : Option String) (h : Host)
    (w : World M)
    → (outputs c args e o h w).1.mem ≡ w.mem
unfolding outputs pure raise
outputs-mem c args e none h w = refl
outputs-mem c args e (some x) h w = refl

Settled-outputs :
    (R : Resource) {M : Type 0} (most n : ℕ) (c : String) (args : List String) (e : Exit)
    (o : Option String) (l : List Event) (h : Host) (w : World M)
    → n ≤ most
    → R.gives (command c args) ≡ false
    → w.log ≡ printed (command c args) (is_none o) e.stdout ∷ l
    → Settled R most n
        (due (λ out. n + cost_of R c args out.0) (outputs c args e o h w).0)
        l
        (outputs c args e o h w).1.log
        (outputs c args e o h w).0
unfolding outputs pure raise
Settled-outputs R most n c args e none l h w le keeps p = rw p (ground arith)
Settled-outputs R most n c args e (some x) l h w le keeps p = rw p (ground arith)

module _ {R : Resource} {M : Type 0} (most down : M → ℕ) (c : String) (args : List String) where
  pub Along-run_out :
      ((d : M) → down d ≤ most d)
      → R.gives (command c args) ≡ false
      → Along R most down (λ out d. down d + cost_of R c args out.0) (run_out c args)
  unfolding run_out process ◌>>=◌
  Along-run_out le keeps = record {
    at = λ h w.
        let e = h.process w.log c args in
        rw (outputs-mem c args e e.error h (add_process c args (is_none e.error) e.stdout w)) (
          Settled-outputs R (most w.mem) (down w.mem) c args e e.error w.log h
            (add_process c args (is_none e.error) e.stdout w) (le w.mem) keeps refl);
  }
