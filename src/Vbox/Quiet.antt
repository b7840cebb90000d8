-- ===== src/Vbox/Quiet.antt =====
-- What vbox does without taking or giving anything: the calls that set a machine up.
use d2vm.Base.{Bool-cases, inl, inr}
use d2vm.QemuImg.{Settings}
use d2vm.Base.{
  ℕ, ◌+◌, String, refl, Bool, true, false, ◌&&◌, ◌==◌, Option, none, some, List, [], ◌∷◌, Result,
  All, All-append, if◌then◌else◌,
}
use d2vm.Host.{Call, command, terminal, listen, close_listener, accept, close_socket, Exit, Exec}
use d2vm.Host.Rules.{Resource, Quiet, Balanced, Balanced-bind, balance_rules}
use d2vm.Host.Mounts.{first_argument, last_argument}
use d2vm.Files.{wrap}
use d2vm.Docker
use d2vm.QemuImg
use d2vm.QemuImg.{ImgInfo, info}
use d2vm.Qemu.Config.{Disk}
use d2vm.RunUtil.Disks.{VbNetwork}
use d2vm.Vbox.{
  VboxFlags, managed, manage, manage_all, try_manage, eject_from, sata_medium, creation, attachment,
  sata_controller, disk_path, attach_disk, attach_disks, networks_from, network_steps,
  adapter_steps,
}

-- What vbox takes: the running machine of a name, the terminal in raw mode, the socket that listens
-- on a path for the console, and the connection that it accepts.
pub data VboxHeld : Type 0 where
  running_vm : String → VboxHeld
  raw_terminal : VboxHeld
  listening connected : String → VboxHeld

abbrev pub is_vm : VboxHeld → String → Bool
is_vm (running_vm name) s = s == name
is_vm _ s = false

abbrev is_raw : VboxHeld → Bool
is_raw raw_terminal = true
is_raw _ = false

abbrev is_listening : VboxHeld → String → Bool
is_listening (listening path) s = s == path
is_listening _ s = false

abbrev is_connected : VboxHeld → String → Bool
is_connected (connected path) s = s == path
is_connected _ s = false

-- The machine that a subcommand of VBoxManage names.
abbrev machine_of : List String → String
machine_of [] = ""
machine_of (s ∷ args) = first_argument args

abbrev pub takes : VboxHeld → Call → Bool
takes k (command c args) = first_argument args == "startvm" && is_vm k (machine_of args)
takes k (terminal op) = op == "raw" && is_raw k
takes k (listen path) = is_listening k path
takes k (accept path) = is_connected k path
takes k _ = false

abbrev pub gives : VboxHeld → Call → Bool
gives k (command c args) =
    first_argument args == "controlvm"
    && last_argument args == "poweroff"
    && is_vm k (machine_of args)
gives k (terminal op) = op == "reset" && is_raw k
gives k (close_listener path) = is_listening k path
gives k (close_socket path) = is_connected k path
gives k _ = false

-- `startvm` takes the machine and `controlvm … poweroff` gives it back; so the terminal's raw mode
-- and its reset, and the two sockets and their closing.
abbrev pub vbox_held : VboxHeld → Resource
vbox_held k = record { takes = takes k; named = λ output. true; gives = gives k }

module _ (R : Resource) {M : Type 0} where
  managed-Balanced :
      (what : String) (e : Exit) (o : Option String) → Balanced R {M = M} (managed what e o)
  unfolding managed
  managed-Balanced what e none = search balance_rules
  managed-Balanced what e (some x) = search balance_rules

  pub manage-Balanced :
      (what vboxmanage : String) (args : List String)
      → Quiet R (command vboxmanage args)
      → Balanced R {M = M} (manage what vboxmanage args)
  unfolding manage
  manage-Balanced what vboxmanage args q = search (balance_rules, managed-Balanced)

  pub manage_all-Balanced :
      (vboxmanage : String) (steps : List (String × List String))
      → All (λ step. Quiet R (command vboxmanage step.1)) steps
      → Balanced R {M = M} (manage_all vboxmanage steps)
  unfolding manage_all
  manage_all-Balanced vboxmanage [] q = search balance_rules
  manage_all-Balanced vboxmanage ((what, args) ∷ steps) (q, qs) =
      Balanced-bind (manage what vboxmanage args) (λ _. manage_all vboxmanage steps)
        (manage-Balanced what vboxmanage args q) (λ _. manage_all-Balanced vboxmanage steps qs)

  pub try_manage-Balanced :
      (vboxmanage : String) (args : List String)
      → Quiet R (command vboxmanage args)
      → Balanced R {M = M} (try_manage vboxmanage args)
  unfolding try_manage
  try_manage-Balanced vboxmanage args q = search balance_rules

  pub wrap-Balanced :
      {A : Type 0} (prefix : String) (m : Exec M A) → Balanced R m → Balanced R (wrap prefix m)
  unfolding wrap
  wrap-Balanced prefix m b = search balance_rules

module _ (k : VboxHeld) {M : Type 0} where
  pub eject_from-Balanced :
      (vboxmanage name : String) (i : ℕ) (disks : List Disk)
      → Balanced (vbox_held k) {M = M} (eject_from vboxmanage name i disks)
  unfolding eject_from sata_medium
  eject_from-Balanced vboxmanage name i [] = search balance_rules
  eject_from-Balanced vboxmanage name i (d ∷ disks) =
      Balanced-bind _ _ (try_manage-Balanced (vbox_held k) vboxmanage _ (refl, refl))
        λ _. eject_from-Balanced vboxmanage name (i + 1) disks

  pub creation-Balanced :
      (vboxmanage : String) (f : VboxFlags)
      → Balanced (vbox_held k) {M = M} (manage_all vboxmanage (creation f))
  unfolding creation
  creation-Balanced vboxmanage f = manage_all-Balanced (vbox_held k) vboxmanage _ (search)

  pub attachment-Balanced :
      (vboxmanage : String) (f : VboxFlags) (console_path path : String)
      → Balanced (vbox_held k) {M = M} (manage_all vboxmanage (attachment f console_path path))
  unfolding attachment
  attachment-Balanced vboxmanage f console_path path =
      manage_all-Balanced (vbox_held k) vboxmanage _ (search)

  pub sata-Balanced :
      (vboxmanage : String) (f : VboxFlags) (disks : List Disk)
      → Balanced (vbox_held k) {M = M} (manage_all vboxmanage (sata_controller f disks))
  unfolding sata_controller
  sata-Balanced vboxmanage f [] = manage_all-Balanced (vbox_held k) vboxmanage _ (search)
  sata-Balanced vboxmanage f (d ∷ disks) = manage_all-Balanced (vbox_held k) vboxmanage _ (search)

-- What a running machine costs.
abbrev pub vm_cost : VboxHeld → String → ℕ
vm_cost k name = if is_vm k name then 1 else 0

module _ (k : VboxHeld) (vboxmanage name : String) where
  abbrev AllQuiet : List (String × List String) → Type 0
  AllQuiet steps = All (λ step. Quiet (vbox_held k) (command vboxmanage step.1)) steps

  adapter_steps-AllQuiet : (nic : ℕ) (d : VbNetwork) → AllQuiet (adapter_steps name nic d)
  unfolding adapter_steps
  adapter_steps-AllQuiet nic d = elim (Bool-cases (d.type == "hostonly")) [
    | inl host ↦ rw host (search)
    | inr other ↦ rw other (elim (Bool-cases (d.type == "bridged")) [
      | inl bridge ↦ rw bridge (search)
      | inr neither ↦ rw neither tt
    ])
  ]

  networks_from-AllQuiet :
      (nic : ℕ) (networks : List VbNetwork) → AllQuiet (networks_from name nic networks)
  unfolding networks_from network_steps
  networks_from-AllQuiet nic [] = tt
  networks_from-AllQuiet nic (d ∷ networks) = (
    (refl, refl),
    (
      (refl, refl),
      All-append _ _ _
          (All-append _ (adapter_steps name nic d) _ (adapter_steps-AllQuiet nic d)
            ((refl, refl), tt))
          (networks_from-AllQuiet (nic + 1) networks),
    ),
  )

module _ (k : VboxHeld) {M : Type 0} where
  pub networks-Balanced :
      (vboxmanage name : String) (nic : ℕ) (networks : List VbNetwork)
      → Balanced (vbox_held k) {M = M} (manage_all vboxmanage (networks_from name nic networks))
  networks-Balanced vboxmanage name nic networks =
      manage_all-Balanced (vbox_held k) vboxmanage _
        (networks_from-AllQuiet k vboxmanage name nic networks)

  attach_disk-Balanced :
      (vboxmanage name : String) (i : ℕ) (d : Disk)
      → Balanced (vbox_held k) {M = M} (attach_disk vboxmanage name i d)
  unfolding attach_disk disk_path sata_medium
  attach_disk-Balanced vboxmanage name i d =
      search (balance_rules, wrap-Balanced, manage-Balanced) depth 9

  pub attach_disks-Balanced :
      (vboxmanage name : String) (i : ℕ) (disks : List Disk)
      → Balanced (vbox_held k) {M = M} (attach_disks vboxmanage name i disks)
  unfolding attach_disks
  attach_disks-Balanced vboxmanage name i [] = search balance_rules
  attach_disks-Balanced vboxmanage name i (d ∷ disks) =
      Balanced-bind _ _ (attach_disk-Balanced vboxmanage name i d)
        λ _. attach_disks-Balanced vboxmanage name (i + 1) disks

  pub info-Balanced :
      (decode : String → Result ImgInfo) (s : Settings) (path : String)
      → Balanced (vbox_held k) {M = M} (info decode s path)
  unfolding info
  info-Balanced decode s path = search balance_rules depth 12

  pub qemu_img-Balanced :
      (s : Settings) (format source dest : String)
      → Balanced (vbox_held k) {M = M} (QemuImg.convert s format source dest)
  unfolding QemuImg.convert Docker.run_and_remove Docker.cmd
  qemu_img-Balanced s format source dest = search balance_rules depth 9
