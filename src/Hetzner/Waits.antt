-- ===== src/Hetzner/Waits.antt =====
-- What run_hetzner waits for: its goroutines, and the server's SSH port.
use d2vm.Base.{
  ℕ, zero, suc, ◌<◌, String, ◌≡◌, refl, ◌⊎◌, inl, inr, true, false, Result-cases, List, [], ◌∷◌,
  Result, ok, err, arith,
}
use d2vm.Host.{
  Call, Event, ssh, is_ok, Host, World, raise, handling, add_event, system, system_, pure, ◌>>=◌,
}
use d2vm.Host.Logs.{event_of}
use d2vm.Host.Routines.{calls, ends}
use d2vm.Host.Routines.Laws.{Needs, Ensures, both-Ensures_left, both-Ensures_right}
use d2vm.Hetzner.{install_utils, write_image, run_in, in_session, sent, transfer, dial_within, ssh_}

answered :
    (op : String) (args : List String) (answer : Result String)
    → (event_of (ssh op args) true ≡ event_of (ssh op args) (is_ok answer))
      ⊎ Needs
          (event_of (ssh op args) true)
          (calls (ssh "close_session" []) λ closed. ends (sent answer))
unfolding sent
answered op args (ok output) = inl refl
answered op args (err e) = inr λ closed. inr tt

run_in-Needs :
    (op : String) (args : List String) (opened : Result String)
    → Needs (event_of (ssh op args) true) (run_in (ssh op args) opened)
unfolding run_in
run_in-Needs op args (err e) = tt
run_in-Needs op args (ok s) = answered op args

in_session-Needs :
    (op : String) (args : List String)
    → Needs (event_of (ssh op args) true) (in_session (ssh op args))
unfolding in_session
in_session-Needs op args opened = inr (run_in-Needs op args opened)

module _ {M : Type 0} (goos img_path : String) where
  -- On every interleaving of the two goroutines: the wait for them ends without an error only if
  -- the utilities are installed and the image is written.
  pub transfer-Ensures :
      Ensures (event_of install_utils true) {M = M} (transfer goos img_path)
      × Ensures (event_of (write_image goos img_path) true) {M = M} (transfer goos img_path)
  unfolding transfer install_utils write_image
  transfer-Ensures = (
    both-Ensures_left _ _ _ (in_session-Needs "run" _),
    both-Ensures_right _ _ _ (in_session-Needs "run_with_input" _),
  )

-- The log with a call that failed that often.
abbrev pub tried : Call → ℕ → List Event → List Event
tried c zero l = l
tried c (suc k) l = tried c k (event_of c false ∷ l)

-- The call is made until it succeeds, at most `n` times: then the answer is `ok`, or it failed each
-- time, and the answer is the error.
abbrev pub TriesFor : ℕ → Call → String → List Event → List Event → Result (Unit {0}) → Type 0
TriesFor n c timeout l l' r =
    ((k : ℕ) × (k < n) × (r ≡ ok tt) × (l' ≡ event_of c true ∷ tried c k l))
    ⊎ ((r ≡ err timeout) × (l' ≡ tried c n l))

TriesFor-later :
    (n : ℕ) (c : Call) (timeout : String) (l l' : List Event) (r : Result (Unit {0}))
    → TriesFor n c timeout (event_of c false ∷ l) l' r
    → TriesFor (suc n) c timeout l l' r
TriesFor-later n c timeout l l' r (inl (k, lt, e, same)) = inl (suc k, omega arith, e, same)
TriesFor-later n c timeout l l' r (inr (e, same)) = inr (e, same)

module _ {M : Type 0} (server user password : String) (h : Host) where
  -- Whatever the host, the dialling ends after at most as many attempts as the timer leaves rounds:
  -- with a connection, or with the timeout, when every attempt has failed.
  pub dial_within-TriesFor :
      (n : ℕ) (w : World M)
      → TriesFor n
          (ssh "dial" (server ∷ user ∷ password ∷ []))
          "timeout while trying to connect to the server"
          w.log
          (dial_within n server user password h w).1.log
          (dial_within n server user password h w).0
  unfolding dial_within ssh_ raise handling system_ system pure ◌>>=◌
  dial_within-TriesFor zero w = inr (refl, refl)
  dial_within-TriesFor (suc n) w =
      let c = ssh "dial" (server ∷ user ∷ password ∷ []) in
      elim (Result-cases (h.system w.log c)) [
        | inl (s, e) ↦ rw e (inl (0, omega arith, refl, refl))
        | inr (x, e) ↦
            rw e (TriesFor-later n c _ w.log _ _ (dial_within-TriesFor n (add_event c false w)))
      ]
