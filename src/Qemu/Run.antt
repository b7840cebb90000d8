-- ===== src/Qemu/Run.antt =====
-- pkg/qemu/qemu.go: Run, runQemuLocal and discoverBinaries.
pub mod Laws
pub mod Completes
use d2vm.Base.{ℕ, String, ◌<>◌, Bool, true, not, ◌==◌, List, [], ◌∷◌, eqb, if◌then◌else◌}
use d2vm.Text.Numbers.{pos, decimal_int}
use d2vm.Host.{
  Exec, stat, look_path, pure, raise, lift, asks, ◌>>=◌, ◌>>◌, handling, system, system_,
  new_uuid_text, run_command,
}
use d2vm.Qemu.Config.{Disk, Config, QemuOption, zero_config, configure}
use d2vm.Qemu.Disks.{complete_disks}
use d2vm.Qemu.Net.{netdev_for}
use d2vm.Qemu.Cmdline.{build_qemu_cmdline}

-- The package's variables defaultArch and defaultAccel.
pub record Defaults : Type 0 where
  pub arch : String
  pub accel : String

unfoldable pub default_arch : String → String
default_arch goarch =
    if goarch == "arm64"
    then "aarch64"
    else if goarch == "amd64"
    then "x86_64"
    else if goarch == "s390x"
    then "s390x"
    else ""

-- An error of another kind than absence counts as presence.
unfoldable pub have_kvm : {M : Type 0} → Exec M Bool
have_kvm =
    handling (system (stat "/dev/kvm")) (λ _. pure true)
      (λ e. do absent ← asks (λ h. h.is_not_exist e); pure (not absent))

-- The switch calls haveKVM only where its first case fails.
default_accel : {M : Type 0} → String → String → Exec M String
unfolding have_kvm
default_accel goarch goos = if goarch == "s390x" then pure "kvm" else (do
  kvm ← have_kvm
  pure (if kvm then "kvm:tcg" else if goos == "darwin" then "hvf:tcg" else ""))

-- init
unfoldable pub init : {M : Type 0} → Exec M Defaults
unfolding default_accel default_arch
init = do
  goarch ← asks (λ h. h.goarch)
  goos ← asks (λ h. h.goos)
  accel ← default_accel goarch goos
  pure (record { arch = default_arch goarch; accel = accel })

-- exec.LookPath with the error that is put in place of its own.
find_binary : {M : Type 0} → String → Exec M String
find_binary name =
    handling (system (look_path name)) (λ p. pure p)
      (λ _. raise ("Unable to find " <> (name <> " within the $PATH")))

unfoldable pub discover_binaries : {M : Type 0} → Config → Exec M Config
unfolding find_binary
discover_binaries c = if not (c.qemu_img_path == "") then pure c else do
  bin ← find_binary ("qemu-system-" <> c.arch)
  img ← find_binary "qemu-img"
  pure (record c { qemu_bin_path = bin; qemu_img_path = img })

create_disk : {M : Type 0} → String → Disk → Exec M (Unit {0})
create_disk img d =
    handling
      (run_command img ("create" ∷ "-f" ∷ d.format ∷ d.path ∷ (decimal_int d.size <> "M") ∷ []))
      (λ _. pure tt)
      (λ e.
        raise ("Error creating disk [" <> (d.path <> ("] format " <> (d.format <> (":  " <> e))))))

-- A disk that is not there is made.
unfoldable pub ensure_disk : {M : Type 0} → String → Disk → Exec M (Unit {0})
unfolding create_disk
ensure_disk img d =
    handling (system (stat d.path)) (λ _. pure tt)
      (λ e. do absent ← asks (λ h. h.is_not_exist e); if absent then create_disk img d else raise e)

unfoldable pub ensure_disks : {M : Type 0} → String → List Disk → Exec M (Unit {0})
ensure_disks img [] = pure tt
ensure_disks img (d ∷ disks) = do ensure_disk img d; ensure_disks img disks

unfoldable pub run_qemu_local : {M : Type 0} → Config → Exec M (Unit {0})
run_qemu_local c = do
  args ← build_qemu_cmdline c
  ensure_disks c.qemu_img_path c.disks
  if c.detached
      then raise "Detached mode is only supported when running in a container, not locally"
      else run_command c.qemu_bin_path args

-- The fields that are empty get their defaults.
unfoldable pub with_defaults : Defaults → Config → Config
with_defaults defaults c = record c {
  arch = if c.arch == "" then defaults.arch else c.arch;
  accel = if c.accel == "" then defaults.accel else c.accel;
}

unfoldable pub sized : Config → Config
sized c = record c {
  cpus = if eqb c.cpus 0 then 1 else c.cpus;
  memory = if eqb c.memory 0 then 1024 else c.memory;
}

abbrev pub image_disk : String → Disk
image_disk path = record { path = path; size = pos 0; format = "" }

-- From the options to a complete configuration. The error of discoverBinaries ends the process.
unfoldable pub prepare : {M : Type 0} → Defaults → String → List QemuOption → Exec M Config
unfolding with_defaults sized
prepare defaults path opts = do
  uuid ← new_uuid_text
  let c = with_defaults defaults (record (configure opts zero_config) { path = path; uuid = uuid })
  system_ (stat c.path)
  disks ← lift (complete_disks 0 c.disks)
  netdev ← lift (netdev_for c.networking c.published_ports)
  discover_binaries (record (sized c) { disks = image_disk c.path ∷ disks; netdev_config = netdev })

unfoldable pub run_qemu : {M : Type 0} → Defaults → String → List QemuOption → Exec M (Unit {0})
run_qemu defaults path opts = do c ← prepare defaults path opts; run_qemu_local c
