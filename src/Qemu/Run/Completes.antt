-- ===== src/Qemu/Run/Completes.antt =====
-- QEMU on a host where no call fails.
use d2vm.Base.{ℕ, ◌≡◌, refl, String, false, List, [], ◌∷◌, ok, length}
use d2vm.Host.{Event, Host, ◌>>=◌, lift, pure, read_random}
use d2vm.Host.Healthy.{
  Healthy, Succeeds, succeed_rules, Succeeds-bind, Succeeds-pure, Succeeds-handling,
  Succeeds-system, Succeeds-run_command,
}
use d2vm.Qemu.Config.{Disk, Config}
use d2vm.Qemu.Net.{generate_mac, set_bits}
use d2vm.Qemu.Cmdline.{go_arch, net_args, build_qemu_cmdline}
use d2vm.Qemu.Run.{ensure_disk, ensure_disks, run_qemu_local}

-- The source of random bytes gives as many as are asked for.
pub record Random (h : Host) : Type 0 where
  pub six : (log : List Event) → (bytes : List ℕ) × (h.random log 6 ≡ ok bytes) × (length bytes ≡ 6)

module _ (h : Host) (healthy : Healthy h) {M : Type 0} where
  generate_mac-Succeeds : Random h → Succeeds h {M = M} generate_mac
  unfolding generate_mac read_random ◌>>=◌ pure
  generate_mac-Succeeds random = record {
    at = λ w. let (bytes, e, six) = random.six w.log in rw e (rw six (set_bits bytes, refl));
  }

  net_args-Succeeds : Random h → (c : Config) → Succeeds h {M = M} (net_args c)
  unfolding net_args
  net_args-Succeeds random c = search (succeed_rules, generate_mac-Succeeds)

  ensure_disks-Succeeds :
      (img : String) (disks : List Disk) → Succeeds h {M = M} (ensure_disks img disks)
  unfolding ensure_disks ensure_disk
  ensure_disks-Succeeds img [] = Succeeds-pure h tt
  ensure_disks-Succeeds img (d ∷ disks) =
      Succeeds-bind h _ _
        (Succeeds-handling h _ _ _ (Succeeds-system h healthy _) λ _. Succeeds-pure h tt)
        λ _. ensure_disks-Succeeds img disks

  cmdline-Succeeds :
      Random h
      → (c : Config) (wanted : String) → go_arch c.arch ≡ ok wanted
      → Succeeds h {M = M} (build_qemu_cmdline c)
  unfolding build_qemu_cmdline lift
  cmdline-Succeeds random c wanted e =
      Succeeds-bind h _ _ (record { at = λ w. (wanted, rw e refl) })
        λ _. search (succeed_rules, net_args-Succeeds)

  -- On a host where no call fails and which has random bytes, the run of QEMU succeeds, for an
  -- architecture that is supported, unless QEMU is to be detached.
  pub run_qemu_local-Succeeds :
      Random h
      → (c : Config) (wanted : String) → go_arch c.arch ≡ ok wanted
      → c.detached ≡ false
      → Succeeds h {M = M} (run_qemu_local c)
  unfolding run_qemu_local
  run_qemu_local-Succeeds random c wanted e attached =
      Succeeds-bind h _ _ (cmdline-Succeeds random c wanted e) λ args.
        Succeeds-bind h _ _ (ensure_disks-Succeeds c.qemu_img_path c.disks)
          λ _. rw attached (Succeeds-run_command h healthy c.qemu_bin_path args)
