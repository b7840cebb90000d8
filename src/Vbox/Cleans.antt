-- ===== src/Vbox/Cleans.antt =====
-- What vbox leaves behind: the machine that it started, the terminal and the sockets.
use d2vm.Base.{◌+◌, ◌≤◌, String, ◌≡◌, refl, false, List, ◌∷◌, Result, arith, if◌then◌else◌}
use d2vm.Host.{
  Call, command, terminal, listen, close_listener, accept, close_socket, Host, World, ◌>>=◌, ◌>>◌,
  process, system, system_, pure, raise, handling, deferring, is_ok, reply,
}
use d2vm.Host.Rules.{taken, given, balance_rules}
use d2vm.Host.Logs.{printed, log-system_}
use d2vm.Host.Within.{Within, Settled-event}
use d2vm.Host.Covers.{
  Covers, Gives, Covers-Balanced, Covers-Gives, Covers-bind, Covers-held, Gives-bind, cover_rules,
}
use d2vm.Files.{wrap}
use d2vm.QemuImg.{ImgInfo}
use d2vm.Vbox.{
  VboxFlags, managed, manage, try_manage, ide_medium, cleanup, resize_terminal, attach_console,
  start_vm, launch, vbox,
}
use d2vm.Vbox.Quiet.{
  VboxHeld, vbox_held, vm_cost, try_manage-Balanced, eject_from-Balanced, creation-Balanced,
  attachment-Balanced, sata-Balanced, networks-Balanced, attach_disks-Balanced, info-Balanced,
  qemu_img-Balanced, wrap-Balanced,
}

module _ (k : VboxHeld) {M : Type 0} where
  try_manage-Gives :
      (vboxmanage : String) (args : List String)
      → (vbox_held k).takes (command vboxmanage args) ≡ false
      → Gives
          (vbox_held k)
          (if (vbox_held k).gives (command vboxmanage args) then 1 else 0)
          {M = M}
          (try_manage vboxmanage args)
  unfolding try_manage process pure ◌>>=◌
  try_manage-Gives vboxmanage args q = record { at = λ h w. ground arith }

  cleanup-Gives :
      (vboxmanage : String) (f : VboxFlags)
      → Gives (vbox_held k) (vm_cost k f.name) {M = M} (cleanup vboxmanage f)
  unfolding cleanup ide_medium
  cleanup-Gives vboxmanage f =
      Gives-bind (vm_cost k f.name) _ _ (try_manage-Gives vboxmanage _ refl) λ _.
        Covers-Balanced _ (search (balance_rules, try_manage-Balanced, eject_from-Balanced) depth 9)

  system_-Gives :
      (c : Call)
      → (vbox_held k).takes c ≡ false
      → Gives (vbox_held k) (if (vbox_held k).gives c then 1 else 0) {M = M} (system_ c)
  system_-Gives c q = record { at = λ h w. rw log-system_ (ground arith) }

  log-wrap :
      (prefix : String) (c : Call) (h : Host) (w : World M)
      → (wrap prefix (system_ c) h w).1.log
        ≡ printed c (is_ok (wrap prefix (system_ c) h w).0) (reply c (h.system w.log c)) ∷ w.log
  unfolding wrap handling pure raise system_ system ◌>>=◌
  log-wrap prefix c h w = ground arith

  log-manage :
      (what vboxmanage : String) (args : List String) (h : Host) (w : World M)
      → (manage what vboxmanage args h w).1.log
        ≡ printed
            (command vboxmanage args)
            (is_ok (manage what vboxmanage args h w).0)
            (h.process w.log vboxmanage args).stdout
          ∷ w.log
  unfolding manage managed process pure raise ◌>>=◌
  log-manage what vboxmanage args h w = ground arith

  taking-Within :
      (prefix : String) (c : Call)
      → (vbox_held k).gives c ≡ false
      → Within
          (vbox_held k)
          {M = M}
          0
          0
          (if (vbox_held k).takes c then 1 else 0)
          (wrap prefix (system_ c))
  taking-Within prefix c q = record {
    at = λ h w.
        Settled-event (vbox_held k) c (wrap prefix (system_ c) h w).0 w.log (log-wrap prefix c h w)
          q (λ o. refl);
  }

  start-Within :
      (what vboxmanage : String) (args : List String)
      → (vbox_held k).gives (command vboxmanage args) ≡ false
      → Within
          (vbox_held k)
          {M = M}
          0
          0
          (if (vbox_held k).takes (command vboxmanage args) then 1 else 0)
          (manage what vboxmanage args)
  start-Within what vboxmanage args q = record {
    at = λ h w.
        Settled-event (vbox_held k) (command vboxmanage args) (manage what vboxmanage args h w).0
          w.log (log-manage what vboxmanage args h w) q (λ o. refl);
  }

  attach_console-Covers :
      (console_path : String) → Covers (vbox_held k) {M = M} (attach_console console_path)
  unfolding attach_console resize_terminal
  attach_console-Covers console_path =
      Covers-bind _ _ (Covers-Balanced _ (search balance_rules)) λ _.
        Covers-held _ _ _ _ (taking-Within "set raw term: " (terminal "raw") refl)
          (system_-Gives (terminal "reset") refl)
          λ _.
            Covers-held _ _ _ _ (taking-Within "Accept error: " (accept console_path) refl)
              (system_-Gives (close_socket console_path) refl)
              λ _. Covers-Balanced _ (search balance_rules)

  start_vm-Covers :
      (vboxmanage : String) (f : VboxFlags) (console_path : String)
      → Covers (vbox_held k) {M = M} (start_vm vboxmanage f console_path)
  unfolding start_vm
  start_vm-Covers vboxmanage f console_path =
      Covers-bind _ _ (Covers-Balanced _ (search (balance_rules, wrap-Balanced))) λ _.
        Covers-held (vm_cost k f.name) _ _ _ (start-Within "startvm" vboxmanage _ refl)
          (cleanup-Gives vboxmanage f) λ _. attach_console-Covers console_path

  listening-Covers :
      (vboxmanage : String) (f : VboxFlags) (prefix console_path : String)
      → Covers (vbox_held k) {M = M} (
          wrap prefix (system_ (listen console_path))
          >> deferring (system_ (close_listener console_path)) (start_vm vboxmanage f console_path))
  listening-Covers vboxmanage f prefix console_path =
      Covers-held _ _ _ _ (taking-Within prefix (listen console_path) refl)
        (system_-Gives (close_listener console_path) refl)
        λ _. start_vm-Covers vboxmanage f console_path

  launch-Covers :
      (vboxmanage : String) (f : VboxFlags) (path : String)
      → Covers (vbox_held k) {M = M} (launch vboxmanage f path)
  unfolding launch
  launch-Covers vboxmanage f path =
      Covers-bind _ _ (Covers-Gives (vm_cost k f.name) _ (cleanup-Gives vboxmanage f)) λ _.
        Covers-bind _ _ (Covers-Balanced _ (creation-Balanced k vboxmanage f)) λ _.
          Covers-bind _ _ (Covers-Balanced _ (search balance_rules)) λ temp_dir.
            Covers-bind _ _ (Covers-Balanced _ (search (balance_rules, wrap-Balanced))) λ _.
              Covers-bind _ _ (Covers-Balanced _ (search (balance_rules, wrap-Balanced)))
                λ console_path.
                  search
                    (
                      cover_rules, attachment-Balanced, sata-Balanced, attach_disks-Balanced,
                      networks-Balanced, listening-Covers, balance_rules,
                    )
                    depth 9

  vbox-Covers :
      (decode : String → Result ImgInfo) (f : VboxFlags) (path : String)
      → Covers (vbox_held k) {M = M} (vbox decode f path)
  unfolding vbox
  vbox-Covers decode f path =
      search
        (cover_rules, balance_rules, wrap-Balanced, info-Balanced, qemu_img-Balanced, launch-Covers)
        depth 14

  -- Whatever fails on whatever host, vbox tries to power off each machine, to reset the terminal
  -- and to close each socket at least as often as it has started it, set it raw, listened on it or
  -- accepted a connection on it. For what it does from the start of the machine on, this holds by
  -- itself, without the power-off of the clean-up before.
  pub vbox-releases :
      (decode : String → Result ImgInfo) (f : VboxFlags) (vboxmanage path console_path : String)
      (h : Host) (w : World M)
      → (taken (vbox_held k) (vbox decode f path h w).1.log + given (vbox_held k) w.log
          ≤ given (vbox_held k) (vbox decode f path h w).1.log + taken (vbox_held k) w.log)
        × (taken (vbox_held k) (start_vm vboxmanage f console_path h w).1.log
              + given (vbox_held k) w.log
            ≤ given (vbox_held k) (start_vm vboxmanage f console_path h w).1.log
              + taken (vbox_held k) w.log)
  vbox-releases decode f vboxmanage path console_path h w =
      ((vbox-Covers decode f path).at h w, (start_vm-Covers vboxmanage f console_path).at h w)
