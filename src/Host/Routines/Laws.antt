-- ===== src/Host/Routines/Laws.antt =====
-- Every interleaving of two goroutines.
use d2vm.Base.{Bool-cases, Among, String, ◌≡◌, ◌⊎◌, inl, inr, Result, ok, err}
use d2vm.Host.{Call, Event, Host, World, Exec, attempt, system, lift, raise, is_ok, reply}
use d2vm.Host.Rules.{
  Resource, Quiet, Balanced, Balanced-attempt, Balanced-system, Balanced-lift, Balanced-raise,
  Balanced-if,
}
use d2vm.Host.Logs.{printed}
use d2vm.Host.Routines.{Routine, ends, calls, alone, left_over, both, choose}

-- The goroutine makes no call that takes or gives anything.
abbrev pub IsQuiet : Resource → Routine → Type 0
IsQuiet R (ends r) = Unit
IsQuiet R (calls c k) = Quiet R c × ((r : Result String) → IsQuiet R (k r))

module _ (R : Resource) {M : Type 0} where
  choose-Balanced :
      {A : Type 0} (m n : Exec M A) → Balanced R m → Balanced R n → Balanced R (choose m n)
  unfolding choose
  choose-Balanced m n p q = record { at = λ h w. (Balanced-if (h.first_done w.log) m n p q).at h w }

  alone-Balanced : (m : Routine) → IsQuiet R m → Balanced R {M = M} (alone m)
  unfolding alone
  alone-Balanced (ends r) q = Balanced-lift r
  alone-Balanced (calls c k) (q, rest) =
      Balanced-attempt _ _ (Balanced-system c q) λ r. alone-Balanced (k r) (rest r)

  left_over-Balanced : (m : Routine) (e : String) → IsQuiet R m → Balanced R {M = M} (left_over m e)
  unfolding left_over
  left_over-Balanced (ends r) e q = Balanced-raise e
  left_over-Balanced (calls c k) e (q, rest) =
      choose-Balanced _ _
        (Balanced-attempt _ _ (Balanced-system c q) λ r. left_over-Balanced (k r) e (rest r))
        (Balanced-raise e)

  -- Whatever the interleaving, two goroutines that take nothing and give nothing leave the balance.
  pub both-Balanced : (m n : Routine) → IsQuiet R m → IsQuiet R n → Balanced R {M = M} (both m n)
  unfolding both
  both-Balanced (ends (ok u)) n q p = alone-Balanced n p
  both-Balanced (ends (err e)) n q p = left_over-Balanced n e p
  both-Balanced (calls c k) (ends (ok u)) q p = alone-Balanced (calls c k) q
  both-Balanced (calls c k) (ends (err e)) q p = left_over-Balanced (calls c k) e q
  both-Balanced (calls c k) (calls d l) (q, qs) (p, ps) =
      choose-Balanced _ _
        (Balanced-attempt _ _ (Balanced-system c q)
          λ r. both-Balanced (k r) (calls d l) (qs r) (p, ps))
        (Balanced-attempt _ _ (Balanced-system d p)
          λ r. both-Balanced (calls c k) (l r) (q, qs) (ps r))

-- The goroutine ends with an error, unless the event has happened.
abbrev pub Needs : Event → Routine → Type 0
Needs e (ends (ok u)) = ⊥
Needs e (ends (err x)) = Unit
Needs e (calls c k) = (r : Result String) → (e ≡ printed c (is_ok r) (reply c r)) ⊎ Needs e (k r)

-- The event is in the log, and stays there.
pub record Keeps (e : Event) {M A : Type 0} (m : Exec M A) : Type 0 where
  pub at : (h : Host) (w : World M) → Among e w.log → Among e (m h w).1.log

-- If the action succeeds, the event is in the log.
pub record Ensures (e : Event) {M A : Type 0} (m : Exec M A) : Type 0 where
  pub at : (h : Host) (w : World M) (a : A) → (m h w).0 ≡ ok a → Among e (m h w).1.log

module _ (e : Event) {M : Type 0} where
  system_step :
      {A : Type 0} (c : Call) (f : Result String → Exec M A)
      → ((r : Result String) → Keeps e (f r))
      → Keeps e (attempt (system c) f)
  unfolding attempt system
  system_step c f k = record { at = λ h w i. (k (h.system w.log c)).at h _ (inr i) }

  choose-Keeps : {A : Type 0} (m n : Exec M A) → Keeps e m → Keeps e n → Keeps e (choose m n)
  unfolding choose
  choose-Keeps m n p q = record {
    at = λ h w i. elim (Bool-cases (h.first_done w.log)) [
      | inl t ↦ rw t (p.at h w i)
      | inr f ↦ rw f (q.at h w i)
    ];
  }

  alone-Keeps : (m : Routine) → Keeps e {M = M} (alone m)
  unfolding alone lift
  alone-Keeps (ends r) = record { at = λ h w i. i }
  alone-Keeps (calls c k) = system_step c _ λ r. alone-Keeps (k r)

  left_over-Keeps : (m : Routine) (x : String) → Keeps e {M = M} (left_over m x)
  unfolding left_over raise
  left_over-Keeps (ends r) x = record { at = λ h w i. i }
  left_over-Keeps (calls c k) x =
      choose-Keeps _ _ (system_step c _ λ r. left_over-Keeps (k r) x) (record { at = λ h w i. i })

  both-Keeps : (m n : Routine) → Keeps e {M = M} (both m n)
  unfolding both
  both-Keeps (ends (ok u)) n = alone-Keeps n
  both-Keeps (ends (err x)) n = left_over-Keeps n x
  both-Keeps (calls c k) (ends (ok u)) = alone-Keeps (calls c k)
  both-Keeps (calls c k) (ends (err x)) = left_over-Keeps (calls c k) x
  both-Keeps (calls c k) (calls d l) =
      choose-Keeps _ _ (system_step c _ λ r. both-Keeps (k r) (calls d l))
        (system_step d _ λ r. both-Keeps (calls c k) (l r))

  -- The step makes the event, or what follows does.
  Ensures-step :
      {A : Type 0} (c : Call) (f : Result String → Exec M A)
      → ((r : Result String)
          → ((e ≡ printed c (is_ok r) (reply c r)) × Keeps e (f r)) ⊎ Ensures e (f r))
      → Ensures e (attempt (system c) f)
  unfolding attempt system
  Ensures-step c f k = record {
    at = λ h w a p. elim (k (h.system w.log c)) [
      | inl (q, kept) ↦ kept.at h _ (inl q)
      | inr later ↦ later.at h _ a p
    ];
  }

  choose-Ensures :
      {A : Type 0} (m n : Exec M A) → Ensures e m → Ensures e n → Ensures e (choose m n)
  unfolding choose
  choose-Ensures m n p q = record {
    at = λ h w a r. elim (Bool-cases (h.first_done w.log)) [
      | inl t ↦ rw t (p.at h w a (rw t at r))
      | inr f ↦ rw f (q.at h w a (rw f at r))
    ];
  }

  raise-Ensures : {A : Type 0} (x : String) → Ensures e {M = M} {A = A} (raise x)
  unfolding raise
  raise-Ensures x = record { at = λ h w a p. absurd (cc) }

  left_over-Ensures : (m : Routine) (x : String) → Ensures e {M = M} (left_over m x)
  unfolding left_over
  left_over-Ensures (ends r) x = raise-Ensures x
  left_over-Ensures (calls c k) x =
      choose-Ensures _ _ (Ensures-step c _ λ r. inr (left_over-Ensures (k r) x)) (raise-Ensures x)

  alone-Ensures : (m : Routine) → Needs e m → Ensures e {M = M} (alone m)
  unfolding alone lift raise
  alone-Ensures (ends (ok u)) n = absurd n
  alone-Ensures (ends (err x)) n = raise-Ensures x
  alone-Ensures (calls c k) n = Ensures-step c _ λ r. elim (n r) [
    | inl q ↦ inl (q, alone-Keeps (k r))
    | inr later ↦ inr (alone-Ensures (k r) later)
  ]

  -- On every interleaving: the caller goes on without an error only if what the first goroutine
  -- needs has happened;
  pub both-Ensures_left : (m n : Routine) → Needs e m → Ensures e {M = M} (both m n)
  unfolding both
  both-Ensures_left (ends (ok u)) n q = absurd q
  both-Ensures_left (ends (err x)) n q = left_over-Ensures n x
  both-Ensures_left (calls c k) (ends (ok u)) q = alone-Ensures (calls c k) q
  both-Ensures_left (calls c k) (ends (err x)) q = left_over-Ensures (calls c k) x
  both-Ensures_left (calls c k) (calls d l) q =
      choose-Ensures _ _
        (Ensures-step c _ λ r. elim (q r) [
          | inl now ↦ inl (now, both-Keeps (k r) (calls d l))
          | inr later ↦ inr (both-Ensures_left (k r) (calls d l) later)
        ])
        (Ensures-step d _ λ r. inr (both-Ensures_left (calls c k) (l r) q))

  -- and likewise for the second one.
  pub both-Ensures_right : (m n : Routine) → Needs e n → Ensures e {M = M} (both m n)
  unfolding both
  both-Ensures_right (ends (ok u)) n q = alone-Ensures n q
  both-Ensures_right (ends (err x)) n q = left_over-Ensures n x
  both-Ensures_right (calls c k) (ends (ok u)) q = absurd q
  both-Ensures_right (calls c k) (ends (err x)) q = left_over-Ensures (calls c k) x
  both-Ensures_right (calls c k) (calls d l) q =
      choose-Ensures _ _ (Ensures-step c _ λ r. inr (both-Ensures_right (k r) (calls d l) q)) (
        Ensures-step d _ λ r. elim (q r) [
          | inl now ↦ inl (now, both-Keeps (calls c k) (l r))
          | inr later ↦ inr (both-Ensures_right (calls c k) (l r) later)
        ])
