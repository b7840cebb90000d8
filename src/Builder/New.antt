-- ===== src/Builder/New.antt =====
-- NewBuilder: the request is checked, and completed with defaults.
pub mod Accepts
pub mod Mounts
pub mod Completes
use d2vm.Base.{
  ℕ, ◌*◌, ◌^◌, String, ◌<>◌, Bool, true, false, not, ◌&&◌, ◌==◌, List, [], ◌∷◌, ◌++◌, Result, ok,
  err, ltb, leb, eqb, any, if◌then◌else◌,
}
use d2vm.Text.{to_lower, join, trim_prefix}
use d2vm.Text.Paths.{join_path}
use d2vm.Host.{
  Exec, mkdir_all, look_path, pure, raise, lift, asks, ◌>>=◌, ◌>>◌, handling, system, system_,
}
use d2vm.OsRelease.{OsRelease, supports_luks}
use d2vm.Config
use d2vm.Config.{Config}
use d2vm.BootFs
use d2vm.BootFs.{BootFs, boot_fs_ext4}
use d2vm.Bootloader
use d2vm.Bootloader.{Bootloader, syslinux, bootloader_by_name}
use d2vm.Image.{Image, new_image}
use d2vm.Builder.Defs.{Builder}

-- The parameters of NewBuilder. A Go map has no order: `extra_hosts` has the pairs in the order
-- in which the loop meets them.
pub record Request : Type 0 where
  pub workdir : String
  pub img_tag : String
  pub disk : String
  pub size : ℕ
  pub os_release : OsRelease
  pub format : String
  pub cmd_line_extra : String
  pub split_boot : Bool
  pub boot_fs : BootFs
  pub boot_size : ℕ
  pub luks_password : String
  pub boot_loader : String
  pub platform : String
  pub hostname : String
  pub dns : List String
  pub dns_search : List String
  pub extra_hosts : List (String × String)

abbrev pub formats : List String
formats = "qcow2" ∷ "qed" ∷ "raw" ∷ "vdi" ∷ "vhd" ∷ "vhd" ∷ "vhdx" ∷ "vmdk" ∷ []

abbrev pub gigabyte : ℕ
gigabyte = 2 ^ 30

unfoldable pub arch_of : String → Result String
arch_of platform =
    if platform == "linux/amd64"
    then ok "x86_64"
    else if platform == "linux/arm64"
    then ok "arm64"
    else if platform == "linux/aarch64"
    then ok "arm64"
    else err
        ("unexpected platform: " <> (platform <> ", supported platforms: linux/amd64, linux/arm64"))

unfoldable pub check_luks : Request → Result (Unit {0})
check_luks q =
    if q.luks_password == ""
    then ok tt
    else if not q.split_boot
    then err "luks encryption requires split boot"
    else if not (supports_luks q.os_release)
    then err (
        "luks encryption not supported on "
        <> (q.os_release.id <> (" " <> q.os_release.version_id)))
    else ok tt

-- The name that qemu-img has for the format.
unfoldable pub check_format : String → Result String
check_format format =
    let f = to_lower format in
    if not (any (λ v. v == f) formats)
    then err ("invalid format: " <> (f <> (" valid formats are: " <> join formats " ")))
    else if f == "vhd"
    then ok "vpc"
    else ok f

unfoldable pub check_boot_size : Request → Result (Unit {0})
check_boot_size q =
    if q.split_boot && ltb q.boot_size 50
    then err "boot partition size must be at least 50MiB"
    else if q.split_boot && leb q.size q.boot_size
    then err "boot partition size must be less than the disk size"
    else ok tt

-- With a boot partition of its own, paths to the kernel start below /boot.
unfoldable pub boot_config : Bool → Config → Config
boot_config split_boot c =
    if split_boot
    then record { kernel = trim_prefix c.kernel "/boot"; initrd = trim_prefix c.initrd "/boot" }
    else c

abbrev default_to : String → String → String
default_to d s = if s == "" then d else s

abbrev static_hosts : String
static_hosts =
    "127.0.0.1 localhost\n\n# The following lines are desirable for IPv6 capable hosts\n::1 ip6-localhost ip6-loopback\nfe00::0 ip6-localnet\nff00::0 ip6-mcastprefix\nff02::1 ip6-allnodes\nff02::2 ip6-allrouters\nff02::3 ip6-allhosts\n"

-- The loop that appends a line for each extra host.
unfoldable pub add_hosts : String → List (String × String) → String
add_hosts hosts [] = hosts
add_hosts hosts ((k, v) ∷ rest) = add_hosts (hosts <> (v <> (" " <> (k <> "\n")))) rest

default_dns : List String → List String
default_dns [] = "8.8.8.8" ∷ []
default_dns (server ∷ dns) = server ∷ dns

unfoldable pub builder_of :
    Request → String → String → Config → BootFs → Bootloader → Image → Builder
unfolding default_dns add_hosts
builder_of q arch f c fs bl img =
    let disk = default_to "disk0" q.disk in
    record {
      os_release = q.os_release;
      config = c;
      bootloader = bl;
      img = img;
      disk_raw = join_path (q.workdir ∷ (disk <> ".d2vm.raw") ∷ []);
      disk_out = join_path (q.workdir ∷ (disk <> ("." <> q.format)) ∷ []);
      format = f;
      size = if eqb q.size 0 then 10 * gigabyte else q.size;
      mnt_point = join_path (q.workdir ∷ "/mnt" ∷ []);
      split_boot = q.split_boot;
      boot_size = q.boot_size;
      boot_fs = fs;
      luks_password = q.luks_password;
      cmd_line_extra = q.cmd_line_extra;
      arch = arch;
      hostname = default_to "localhost" q.hostname;
      dns = default_dns q.dns;
      dns_search = q.dns_search;
      hosts = add_hosts static_hosts q.extra_hosts;
    }

abbrev is_syslinux : Bootloader → Bool
is_syslinux (syslinux _) = true
is_syslinux _ = false

unfoldable pub dependencies : Bootloader → List String
dependencies bl =
    ("mount" ∷ "blkid" ∷ "tar" ∷ "losetup" ∷ "parted" ∷ "kpartx" ∷ "qemu-img" ∷ "dd" ∷ "mkfs.ext4"
      ∷ "cryptsetup" ∷ [])
    ++ (if is_syslinux bl then "extlinux" ∷ [] else [])

-- The errors of exec.LookPath for the programs that are missing.
unfoldable pub missing : {M : Type 0} → List String → Exec M (List String)
missing [] = pure []
missing (v ∷ deps) =
    handling (system (look_path v)) (λ _. missing deps)
      (λ e. do rest ← missing deps; pure (e ∷ rest))

-- multierr: no error if there is none in the list.
unfoldable pub combine : {M : Type 0} → List String → Exec M (Unit {0})
combine [] = pure tt
combine (e ∷ errors) = do message ← asks (λ h. h.combined (e ∷ errors)); raise message

unfoldable pub check_dependencies : {M : Type 0} → Bootloader → Exec M (Unit {0})
check_dependencies bl = do errors ← missing (dependencies bl); combine errors

unfoldable pub new_builder : {M : Type 0} → Request → Exec M Builder
new_builder q = do
  arch ← lift (arch_of q.platform)
  lift (check_luks q)
  f ← lift (check_format q.format)
  lift (check_boot_size q)
  c ← lift (Config.config q.os_release)
  let c' = boot_config q.split_boot c
  let fs = default_to boot_fs_ext4 q.boot_fs
  lift (BootFs.validate fs)
  blp ← lift (bootloader_by_name (default_to "syslinux" q.boot_loader))
  bl ← Bootloader.new blp c' q.os_release arch
  lift (Bootloader.validate bl fs)
  img ← new_image q.img_tag q.workdir
  let b = builder_of q arch f c' fs bl img
  check_dependencies bl
  system_ (mkdir_all b.mnt_point 0o777)
  pure b
