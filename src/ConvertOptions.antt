-- ===== src/ConvertOptions.antt =====
-- convert_options.go: what Convert is asked for, built up by functional options.
use d2vm.Base.{ℕ, String, Bool, false, ◌||◌, ◌==◌, List, [], ◌∷◌}
use d2vm.BootFs.{BootFs}
use d2vm.Dockerfile.{NetworkManager}

pub record ConvertOptions : Type 0 where
  pub size : ℕ
  pub password : String
  pub output : String
  pub cmd_line_extra : String
  pub network_manager : NetworkManager
  pub boot_loader : String
  pub raw : Bool
  pub split_boot : Bool
  pub boot_size : ℕ
  pub boot_fs : BootFs
  pub luks_password : String
  pub keep_cache : Bool
  pub platform : String
  pub pull : Bool
  pub hostname : String
  pub dns : List String
  pub dns_search : List String
  pub hosts : List (String × String)

-- `&convertOptions{}`
abbrev pub zero_options : ConvertOptions
zero_options = record {
  size = 0;
  password = "";
  output = "";
  cmd_line_extra = "";
  network_manager = "";
  boot_loader = "";
  raw = false;
  split_boot = false;
  boot_size = 0;
  boot_fs = "";
  luks_password = "";
  keep_cache = false;
  platform = "";
  pull = false;
  hostname = "";
  dns = [];
  dns_search = [];
  hosts = [];
}

unfoldable pub has_grub_bios : ConvertOptions → Bool
has_grub_bios o = o.boot_loader == "grub" || o.boot_loader == "grub-bios"

unfoldable pub has_grub_efi : ConvertOptions → Bool
has_grub_efi o = o.boot_loader == "grub" || o.boot_loader == "grub-efi"

abbrev pub ConvertOption : Type 0
ConvertOption = ConvertOptions → ConvertOptions

unfoldable pub with_size : ℕ → ConvertOption
with_size v o = record o { size = v }

unfoldable pub with_password : String → ConvertOption
with_password v o = record o { password = v }

unfoldable pub with_output : String → ConvertOption
with_output v o = record o { output = v }

unfoldable pub with_cmd_line_extra : String → ConvertOption
with_cmd_line_extra v o = record o { cmd_line_extra = v }

unfoldable pub with_network_manager : NetworkManager → ConvertOption
with_network_manager v o = record o { network_manager = v }

unfoldable pub with_boot_loader : String → ConvertOption
with_boot_loader v o = record o { boot_loader = v }

unfoldable pub with_raw : Bool → ConvertOption
with_raw v o = record o { raw = v }

unfoldable pub with_split_boot : Bool → ConvertOption
with_split_boot v o = record o { split_boot = v }

unfoldable pub with_boot_size : ℕ → ConvertOption
with_boot_size v o = record o { boot_size = v }

unfoldable pub with_boot_fs : BootFs → ConvertOption
with_boot_fs v o = record o { boot_fs = v }

unfoldable pub with_luks_password : String → ConvertOption
with_luks_password v o = record o { luks_password = v }

unfoldable pub with_keep_cache : Bool → ConvertOption
with_keep_cache v o = record o { keep_cache = v }

unfoldable pub with_platform : String → ConvertOption
with_platform v o = record o { platform = v }

unfoldable pub with_pull : Bool → ConvertOption
with_pull v o = record o { pull = v }

unfoldable pub with_hostname : String → ConvertOption
with_hostname v o = record o { hostname = v }

unfoldable pub with_dns : List String → ConvertOption
with_dns v o = record o { dns = v }

unfoldable pub with_dns_search : List String → ConvertOption
with_dns_search v o = record o { dns_search = v }

unfoldable pub with_extra_hosts : List (String × String) → ConvertOption
with_extra_hosts v o = record o { hosts = v }

-- The loop of Convert over its options.
unfoldable pub apply : List ConvertOption → ConvertOptions → ConvertOptions
apply [] o = o
apply (opt ∷ opts) o = apply opts (opt o)
