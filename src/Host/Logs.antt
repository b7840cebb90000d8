-- ===== src/Host/Logs.antt =====
-- What single calls add to the log, and that they leave the memory alone.
use d2vm.Base.{String, ◌≡◌, Bool, List, ◌∷◌, arith}
use d2vm.Host.{run_command}
use d2vm.Host.{
  Call, command, Event, Host, World, ◌>>=◌, is_ok, reply, process, system, system_, finish, outputs,
  run_out, run,
}

abbrev pub printed : Call → Bool → String → Event
printed call done output = record { call = call; done = done; output = output }

-- An event of a call that is no process.
abbrev pub event_of : Call → Bool → Event
event_of call done = printed call done ""

module _ {M : Type 0} (c : String) (args : List String) (h : Host) (w : World M) where
  -- Whichever of the two ways of running a process is set, one event is logged, and the process
  -- has failed exactly if the action has.
  pub log-run :
      (run c args h w).1.log
      ≡ printed (command c args) (is_ok (run c args h w).0) (h.process w.log c args).stdout ∷ w.log
  unfolding run process ◌>>=◌ outputs finish
  log-run = ground arith

  pub mem-run : (run c args h w).1.mem ≡ w.mem
  unfolding run process ◌>>=◌ outputs finish
  mem-run = ground arith

  pub log-run_out :
      (run_out c args h w).1.log
      ≡ printed (command c args) (is_ok (run_out c args h w).0) (h.process w.log c args).stdout
        ∷ w.log
  unfolding run_out process ◌>>=◌ outputs
  log-run_out = ground arith

  pub log-run_command :
      (run_command c args h w).1.log
      ≡ printed (command c args) (is_ok (run_command c args h w).0) (h.process w.log c args).stdout
        ∷ w.log
  unfolding run_command process ◌>>=◌ finish
  log-run_command = ground arith

module _ {M : Type 0} (c : Call) (h : Host) (w : World M) where
  pub log-system_ :
      (system_ c h w).1.log
      ≡ printed c (is_ok (system_ c h w).0) (reply c (h.system w.log c)) ∷ w.log
  unfolding system_ system ◌>>=◌
  log-system_ = ground arith

  pub mem-system_ : (system_ c h w).1.mem ≡ w.mem
  unfolding system_ system ◌>>=◌
  mem-system_ = ground arith

  pub log-system :
      (system c h w).1.log ≡ printed c (is_ok (system c h w).0) (reply c (system c h w).0) ∷ w.log
  unfolding system
  log-system = ground arith
