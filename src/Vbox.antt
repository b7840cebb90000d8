-- ===== src/Vbox.antt =====
-- cmd/d2vm/run/vbox.go: a virtual machine in VirtualBox. `decode` stands for encoding/json's
-- Unmarshal of what qemu-img prints. The terminal and the console's socket are calls of the host.
pub mod Quiet
pub mod Cleans
use d2vm.Base.{
  ℕ, ◌+◌, ◌*◌, String, ◌<>◌, Bool, not, ◌&&◌, ◌||◌, ◌==◌, Option, none, some, List, [], ◌∷◌, ◌++◌,
  Result, if◌then◌else◌,
}
use d2vm.Text.Numbers.{ℤ, pos, negsuc, decimal}
use d2vm.Text.Paths.{join_path, base, dir}
use d2vm.Host.{
  Exec, Exit, mkdir_all, remove, remove_all, stat, abs_path, look_path, truncate, listen,
  close_listener, accept, close_socket, terminal, copy_streams, pure, raise, asks, ◌>>=◌, ◌>>◌,
  deferring, attempt, handling, process, system, system_,
}
use d2vm.Files.{wrap}
use d2vm.QemuImg
use d2vm.QemuImg.{Settings, ImgInfo, info}
use d2vm.Qemu.Config.{Disk}
use d2vm.Qemu.Disks.{is_zero}
use d2vm.RunUtil.Sizes.{wrap_int}
use d2vm.RunUtil.Disks.{VbNetwork}

-- The variables of the package that the command reads.
pub record VboxFlags : Type 0 where
  pub vboxmanage_flag : String
  pub name : String
  pub disks : List Disk
  pub networks : List VbNetwork
  pub enable_gui : Bool
  pub cpus : ℕ
  pub mem : ℕ
  pub settings : Settings

managed : {M : Type 0} → String → Exit → Option String → Exec M (Unit {0})
managed what e none = pure tt
managed what e (some message) = raise (what <> (" error: " <> (message <> ("\n" <> e.stderr))))

-- manage, and the error that vbox makes of one.
unfoldable pub manage : {M : Type 0} → String → String → List String → Exec M (Unit {0})
unfolding managed
manage what vboxmanage args = do e ← process vboxmanage args; managed what e e.error

unfoldable pub manage_all : {M : Type 0} → String → List (String × List String) → Exec M (Unit {0})
manage_all vboxmanage [] = pure tt
manage_all vboxmanage ((what, args) ∷ steps) = do
  manage what vboxmanage args
  manage_all vboxmanage steps

ide_medium : String → String → List String
ide_medium name medium =
    "storageattach" ∷ name ∷ "--storagectl" ∷ "IDE Controller" ∷ "--port" ∷ "1" ∷ "--device" ∷ "0"
    ∷ "--type" ∷ "hdd" ∷ "--medium" ∷ medium ∷ []

sata_medium : String → ℕ → String → List String
sata_medium name device medium =
    "storageattach"
    ∷ name
    ∷ "--storagectl"
    ∷ "SATA"
    ∷ "--port"
    ∷ "0"
    ∷ "--device"
    ∷ decimal device
    ∷ "--type"
    ∷ "hdd"
    ∷ "--medium"
    ∷ medium
    ∷ []

-- A call whose error is at most logged.
unfoldable pub try_manage : {M : Type 0} → String → List String → Exec M (Unit {0})
try_manage vboxmanage args = do process vboxmanage args; pure tt

pub eject_from : {M : Type 0} → String → String → ℕ → List Disk → Exec M (Unit {0})
eject_from vboxmanage name i [] = pure tt
eject_from vboxmanage name i (d ∷ disks) = do
  try_manage vboxmanage (sata_medium name i "emptydrive")
  eject_from vboxmanage name (i + 1) disks

unfoldable pub cleanup : {M : Type 0} → String → VboxFlags → Exec M (Unit {0})
unfolding eject_from ide_medium sata_medium
cleanup vboxmanage f = do
  try_manage vboxmanage ("controlvm" ∷ f.name ∷ "poweroff" ∷ [])
  try_manage vboxmanage (ide_medium f.name "emptydrive")
  eject_from vboxmanage f.name 0 f.disks
  try_manage vboxmanage ("unregistervm" ∷ f.name ∷ "--delete" ∷ [])

modify_vm : String → String → List String → String × List String
modify_vm name flag values = ("modifyvm " <> flag, "modifyvm" ∷ name ∷ flag ∷ values)

-- From the creation of the machine to its serial port. The errors say `--uart`.
unfoldable pub creation : VboxFlags → List (String × List String)
unfolding modify_vm
creation f =
    ("createvm", "createvm" ∷ "--name" ∷ f.name ∷ "--register" ∷ [])
    ∷ modify_vm f.name "--acpi" ("on" ∷ [])
    ∷ modify_vm f.name "--memory" (decimal f.mem ∷ [])
    ∷ modify_vm f.name "--cpus" (decimal f.cpus ∷ [])
    ∷ modify_vm f.name "--firmware" ("bios" ∷ [])
    ∷ ("modifyvm --uart", "modifyvm" ∷ f.name ∷ "--uart1" ∷ "0x3F8" ∷ "4" ∷ [])
    ∷ []

unfoldable pub attachment : VboxFlags → String → String → List (String × List String)
unfolding ide_medium
attachment f console_path path =
    ("modifyvm --uartmode", "modifyvm" ∷ f.name ∷ "--uartmode1" ∷ "client" ∷ console_path ∷ [])
    ∷ ("storagectl", "storagectl" ∷ f.name ∷ "--name" ∷ "IDE Controller" ∷ "--add" ∷ "ide" ∷ [])
    ∷ ("storageattach", ide_medium f.name path)
    ∷ ("modifyvm --boot", "modifyvm" ∷ f.name ∷ "--boot1" ∷ "disk" ∷ [])
    ∷ []

pub sata_controller : VboxFlags → List Disk → List (String × List String)
sata_controller f [] = []
sata_controller f (d ∷ disks) =
    ("storagectl", "storagectl" ∷ f.name ∷ "--name" ∷ "SATA" ∷ "--add" ∷ "sata" ∷ []) ∷ []

bytes_of_mb : ℤ → ℤ
bytes_of_mb (pos n) = pos (1048576 * n)
bytes_of_mb (negsuc n) = negsuc (1048576 * n + 1048575)

-- The path of the disk; a disk with no path is a new file of its size.
disk_path : {M : Type 0} → ℕ → Disk → Exec M String
unfolding bytes_of_mb
disk_path i d = if not (d.path == "") then pure d.path else (do
  let path = "disk" <> (decimal i <> ".img")
  wrap "Cannot create disk: " (system_ (truncate path (wrap_int (bytes_of_mb d.size))))
  pure path)

unfoldable pub attach_disk : {M : Type 0} → String → String → ℕ → Disk → Exec M (Unit {0})
unfolding disk_path sata_medium
attach_disk vboxmanage name i d =
    let format = if not (is_zero d.size) && (d.format == "") then "raw" else d.format in
    if not (format == "raw") && (d.path == "")
    then raise "vbox currently can only create raw disks"
    else if (d.path == "") && is_zero d.size
    then raise "please specify an existing disk file or a size"
    else (do path ← disk_path i d; manage "storageattach" vboxmanage (sata_medium name i path))

unfoldable pub attach_disks : {M : Type 0} → String → String → ℕ → List Disk → Exec M (Unit {0})
attach_disks vboxmanage name i [] = pure tt
attach_disks vboxmanage name i (d ∷ disks) = do
  attach_disk vboxmanage name i d
  attach_disks vboxmanage name (i + 1) disks

adapter_steps : String → ℕ → VbNetwork → List (String × List String)
adapter_steps name nic d =
    if d.type == "hostonly"
    then (
      "modifyvm --hostonlyadapter",
      "modifyvm" ∷ name ∷ ("--hostonlyadapter" <> decimal nic) ∷ d.adapter ∷ [],
    )
      ∷ []
    else if d.type == "bridged"
    then (
      "modifyvm --bridgeadapter",
      "modifyvm" ∷ name ∷ ("--bridgeadapter" <> decimal nic) ∷ d.adapter ∷ [],
    )
      ∷ []
    else []

network_steps : String → ℕ → VbNetwork → List (String × List String)
network_steps name nic d =
    ("modifyvm --nictype", "modifyvm" ∷ name ∷ ("--nictype" <> decimal nic) ∷ "virtio" ∷ [])
    ∷ ("modifyvm --nic", "modifyvm" ∷ name ∷ ("--nic" <> decimal nic) ∷ d.type ∷ [])
    ∷ (adapter_steps name nic d
        ++ ((
          "modifyvm --cableconnected",
          "modifyvm" ∷ name ∷ ("--cableconnected" <> decimal nic) ∷ "on" ∷ [],
        )
            ∷ []))

-- The loop over the networks, whose cards are counted from 1.
unfoldable pub networks_from : String → ℕ → List VbNetwork → List (String × List String)
unfolding network_steps adapter_steps
networks_from name nic [] = []
networks_from name nic (d ∷ networks) =
    network_steps name nic d ++ networks_from name (nic + 1) networks

-- `err != nil && !errors.Is(err, console.ErrUnsupported)`
resize_terminal : {M : Type 0} → Exec M (Unit {0})
resize_terminal =
    handling (system (terminal "resize")) (λ _. pure tt)
      (λ e. do
        unsupported ← asks (λ h. h.is_unsupported e)
        if unsupported then pure tt else raise ("resize term: " <> e))

-- With the machine running: its console on the terminal.
unfoldable pub attach_console : {M : Type 0} → String → Exec M (Unit {0})
unfolding resize_terminal
attach_console console_path = do
  resize_terminal
  wrap "set raw term: " (system_ (terminal "raw"))
  deferring (system_ (terminal "reset")) (do
    wrap "Accept error: " (system_ (accept console_path))
    deferring (system_ (close_socket console_path)) (system_ (copy_streams console_path)))

unfoldable pub start_vm : {M : Type 0} → String → VboxFlags → String → Exec M (Unit {0})
start_vm vboxmanage f console_path = do
  wrap "get term size: " (system_ (terminal "size"))
  manage "startvm" vboxmanage
      ("startvm" ∷ f.name ∷ "--type" ∷ (if f.enable_gui then "gui" else "headless") ∷ [])
  deferring (cleanup vboxmanage f) (attach_console console_path)

-- From the removal of an old machine of the same name to the end.
unfoldable pub launch : {M : Type 0} → String → VboxFlags → String → Exec M (Unit {0})
unfolding sata_controller
launch vboxmanage f path = do
  cleanup vboxmanage f
  manage_all vboxmanage (creation f)
  temp_dir ← asks (λ h. h.temp_dir)
  let relative = join_path (temp_dir ∷ "d2vm-vb" ∷ f.name ∷ "console" ∷ [])
  wrap ("mkir " <> (relative <> ": ")) (system_ (mkdir_all (dir relative) 0o777))
  console_path ← wrap "Bad path: " (system (abs_path relative))
  manage_all vboxmanage (attachment f console_path path)
  manage_all vboxmanage (sata_controller f f.disks)
  attach_disks vboxmanage f.name 0 f.disks
  manage_all vboxmanage (networks_from f.name 1 f.networks)
  attempt (system_ (remove console_path)) λ _. do
    wrap ("Cannot listen on console socket " <> (console_path <> ": "))
        (system_ (listen console_path))
    deferring (system_ (close_listener console_path)) (start_vm vboxmanage f console_path)

module _ (decode : String → Result ImgInfo) where
  -- vbox, on a system other than Windows
  unfoldable pub vbox : {M : Type 0} → VboxFlags → String → Exec M (Unit {0})
  vbox f path = do
    system_ (stat path)
    vboxmanage ←
        wrap ("Cannot find management binary " <> (f.vboxmanage_flag <> ": "))
          (system (look_path f.vboxmanage_flag))
    i ← wrap "failed to get image info: " (info decode f.settings path)
    temp_dir ← asks (λ h. h.temp_dir)
    let vdi = join_path (temp_dir ∷ "d2vm" ∷ "run" ∷ (base path <> ".vdi") ∷ [])
    if i.format == "vdi" then launch vboxmanage f path else (do
      system_ (mkdir_all (dir vdi) 0o755)
      deferring (system_ (remove_all vdi))
          (do QemuImg.convert f.settings "vdi" path vdi; launch vboxmanage f vdi))
