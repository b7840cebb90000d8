-- ===== src/Host/Routines.antt =====
-- Goroutines that report by a channel, and a caller that waits for two of them. Their calls are
-- interleaved, one at a time, in an order that the host chooses.
pub mod Laws
use d2vm.Base.{String, Result, ok, err, if◌then◌else◌}
use d2vm.Host.{Call, Exec, raise, lift, attempt, system}

-- A goroutine: its next call and how it goes on with the answer, or what it sends at its end.
pub data Routine : Type 0 where
  ends : Result (Unit {0}) → Routine
  calls : Call → (Result String → Routine) → Routine

-- The scheduler's choice.
unfoldable pub choose : {M A : Type 0} → Exec M A → Exec M A → Exec M A
choose m n h w = (if h.first_done w.log then m else n) h w

-- A goroutine that runs alone, to its end.
unfoldable pub alone : {M : Type 0} → Routine → Exec M (Unit {0})
alone (ends r) = lift r
alone (calls c k) = attempt (system c) λ r. alone (k r)

-- What the other goroutine still does when the caller has gone on with an error: the host
-- chooses how far it comes.
unfoldable pub left_over : {M : Type 0} → Routine → String → Exec M (Unit {0})
unfolding choose
left_over (ends r) e = raise e
left_over (calls c k) e = choose (attempt (system c) λ r. left_over (k r) e) (raise e)

-- The caller waits for both, and goes on at the first error.
unfoldable pub both : {M : Type 0} → Routine → Routine → Exec M (Unit {0})
unfolding alone left_over choose
both (ends (ok u)) n = alone n
both (ends (err e)) n = left_over n e
both (calls c k) (ends (ok u)) = alone (calls c k)
both (calls c k) (ends (err e)) = left_over (calls c k) e
both (calls c k) (calls d l) =
    choose (attempt (system c) λ r. both (k r) (calls d l))
      (attempt (system d) λ r. both (calls c k) (l r))
