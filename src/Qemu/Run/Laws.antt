-- ===== src/Qemu/Run/Laws.antt =====
-- When Run starts a process, and what a run that succeeds has done.
use d2vm.Base.{Bool-cases, inl, inr}
use d2vm.Base.{String, ◌≡◌, false, some, List}
use d2vm.Host.{command, run_command, Event}
use d2vm.Host.Order.{last_call, Leaves, Leaves-bind, Leaves-raise}
use d2vm.Host.Rules.{Balanced, balance_rules}
use d2vm.Host.Logs.{log-run_command}
use d2vm.Host.Processes.{processes}
use d2vm.Qemu.Config.{Config, QemuOption}
use d2vm.Qemu.Run.{Defaults, prepare, discover_binaries, run_qemu_local}

-- The last thing that was done is the program's start.
abbrev pub EndsWith : String → List Event → Type 0
EndsWith bin log = (args : List String) × (last_call log ≡ some (command bin args))

module _ {M : Type 0} where
  discover_binaries-Balanced : (c : Config) → Balanced processes {M = M} (discover_binaries c)
  unfolding discover_binaries
  discover_binaries-Balanced c = search balance_rules depth 9

  -- Until its configuration is complete, Run starts no process, whatever fails on whatever host.
  pub prepare-Balanced :
      (defaults : Defaults) (path : String) (opts : List QemuOption)
      → Balanced processes {M = M} (prepare defaults path opts)
  unfolding prepare
  prepare-Balanced defaults path opts = search (balance_rules, discover_binaries-Balanced) depth 12

  run_command-EndsWith :
      (bin : String) (args : List String) → Leaves (EndsWith bin) (run_command {M = M} bin args)
  run_command-EndsWith bin args = record { at = λ h w a e. (args, rw log-run_command) }

  -- A run of QEMU that succeeds has ended with the start of the configuration's QEMU, and was
  -- not to be detached.
  pub run_qemu_local-EndsWith :
      (c : Config)
      → Leaves
          (λ log. EndsWith c.qemu_bin_path log × (c.detached ≡ false))
          (run_qemu_local {M = M} c)
  unfolding run_qemu_local
  run_qemu_local-EndsWith c = Leaves-bind _ _ _ λ args. Leaves-bind _ _ _ λ u.
      elim (Bool-cases c.detached) [
        | inl detached ↦ rw detached (Leaves-raise _ _)
        | inr attached ↦ record {
          at = λ h w a e.
              let e' = rw attached at e in
              (rw attached ((run_command-EndsWith c.qemu_bin_path args).at h w a e'), attached);
        }
      ]
