-- ===== src/Host/Processes.antt =====
-- The processes that are started, as a resource that is never given back.
use d2vm.Base.{◌≡◌, refl, String, Bool, true, false, List, [], ◌∷◌, ◌==◌, arith}
use d2vm.Host.{Call, Event, command}
use d2vm.Host.Rules.{Resource, Moves, taken, given}

abbrev is_process : Call → Bool
is_process (command c args) = true
is_process _ = false

-- Processes that succeeded, whatever their program.
abbrev pub processes : Resource
processes = record { takes = is_process; named = λ output. true; gives = λ call. false }

abbrev runs : String → Call → Bool
runs program (command c args) = c == program
runs program _ = false

-- Those of one program.
abbrev pub program : String → Resource
program name = record { takes = runs name; named = λ output. true; gives = λ call. false }

given_none : (R : Resource) (l : List Event) → ((c : Call) → R.gives c ≡ false) → given R l ≡ 0
given_none R [] never = refl
given_none R (e ∷ l) never = rw (never e.call) (omega (arith, given_none R l never))

-- An action that keeps the balance of something that is never given back takes nothing.
pub taken-same :
    (l l' : List Event) → Moves processes 0 0 l l' → taken processes l' ≡ taken processes l
taken-same l l' m =
    omega (arith, m, given_none processes l (λ c. refl), given_none processes l' (λ c. refl))
