-- ===== src/Builder/Defs.antt =====
-- The struct builder. The fields that NewBuilder sets and no method assigns are `Builder`; the
-- fields that mountImg and setupRootFS assign are `Devices`, the state of the methods.
use d2vm.Base.{ℕ, String, ◌<>◌, Bool, not, ◌==◌, List, if◌then◌else◌}
use d2vm.OsRelease.{OsRelease}
use d2vm.Config.{Config}
use d2vm.Bootloader.{Bootloader}
use d2vm.BootFs.{BootFs}
use d2vm.Image.{Image}

pub record Builder : Type 0 where
  pub os_release : OsRelease
  pub config : Config
  pub bootloader : Bootloader
  pub img : Image
  pub disk_raw : String
  pub disk_out : String
  pub format : String
  pub size : ℕ
  pub mnt_point : String
  pub split_boot : Bool
  pub boot_size : ℕ
  pub boot_fs : BootFs
  pub luks_password : String
  pub cmd_line_extra : String
  pub arch : String
  pub hostname : String
  pub dns : List String
  pub dns_search : List String
  pub hosts : String

pub record Devices : Type 0 where
  pub lo_device : String
  pub boot_part : String
  pub root_part : String
  pub crypt_part : String
  pub crypt_root : String
  pub mapped_crypt_root : String
  pub boot_uuid : String
  pub root_uuid : String
  pub crypt_uuid : String

-- The state of a builder that NewBuilder has just made.
abbrev pub no_devices : Devices
no_devices = record {
  lo_device = "";
  boot_part = "";
  root_part = "";
  crypt_part = "";
  crypt_root = "";
  mapped_crypt_root = "";
  boot_uuid = "";
  root_uuid = "";
  crypt_uuid = "";
}

unfoldable pub is_luks_enabled : Builder → Bool
is_luks_enabled b = not (b.luks_password == "")

unfoldable pub ch_path : Builder → String → String
ch_path b path = b.mnt_point <> path

unfoldable pub if_else : Bool → String → String → String
if_else v t f = if v then t else f
