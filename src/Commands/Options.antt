-- ===== src/Commands/Options.antt =====
-- The flags reach Convert, and flags that are refused start nothing.
use d2vm.Base.{ℕ, String, ◌≡◌, refl, Bool, false, List, Result, err}
use d2vm.Host.{Host, World, Exec, ◌>>=◌, asks}
use d2vm.Host.Rules.{taken}
use d2vm.Host.Processes.{processes, taken-same}
use d2vm.Dockerfile.{Dockerfile}
use d2vm.ConvertOptions.{
  zero_options, apply, with_size, with_password, with_output, with_cmd_line_extra,
  with_network_manager, with_boot_loader, with_raw, with_split_boot, with_boot_size, with_boot_fs,
  with_luks_password, with_keep_cache, with_platform, with_pull, with_hostname, with_dns,
  with_dns_search, with_extra_hosts,
}
use d2vm.Flags.{Flags, validate_flags}
use d2vm.Flags.Laws.{validate_flags-Balanced}
use d2vm.Commands.{
  CommandFlags, options_of, needs_docker, build_here, convert_here, build_cmd, convert_cmd,
}

-- What Convert asks for has each of the command's flags in its place, whatever the order of the
-- options.
pub apply-options_of :
    (c : CommandFlags) (f : Flags) (size : ℕ) (pull : Bool)
    → apply (options_of c f size pull) zero_options ≡ record {
      size = size;
      password = c.password;
      output = f.output;
      cmd_line_extra = c.cmd_line_extra;
      network_manager = c.network_manager;
      boot_loader = f.bootloader;
      raw = c.raw;
      split_boot = f.split_boot;
      boot_size = c.boot_size;
      boot_fs = f.boot_fs;
      luks_password = f.luks_password;
      keep_cache = c.keep_cache;
      platform = f.platform;
      pull = pull;
      hostname = c.hostname;
      dns = c.dns;
      dns_search = c.dns_search;
      hosts = f.extra_hosts;
    }
unfolding apply options_of with_size with_password with_output with_cmd_line_extra
    with_network_manager with_boot_loader with_raw with_split_boot with_boot_size with_boot_fs
    with_luks_password with_keep_cache with_platform with_pull with_hostname with_dns
    with_dns_search with_extra_hosts
apply-options_of c f size pull = refl

module _ {M : Type 0} (render : Dockerfile → Result String) (c : CommandFlags) where
  -- An action that begins with the check of the flags ends with its error.
  refused :
      (rest : Flags → Exec M (Unit {0})) (h : Host) (w : World M) (e : String)
      → (validate_flags c.flags h w).0 ≡ err e
      → ((validate_flags c.flags >>= rest) h w).0 ≡ err e
        × (taken processes ((validate_flags c.flags >>= rest) h w).1.log ≡ taken processes w.log)
  unfolding ◌>>=◌
  refused rest h w e p = rw p (
    refl,
    taken-same w.log (validate_flags c.flags h w).1.log
        ((validate_flags-Balanced {R = processes} c.flags λ path. (refl, refl)).at h w),
  )

  -- On Linux, for root, the command build ends with the error of flags that do not fit, and has
  -- started no process.
  pub build_cmd-refused :
      (context : String) (os_args : List String) (h : Host) (w : World M) (e : String)
      → needs_docker h ≡ false
      → (validate_flags c.flags h w).0 ≡ err e
      → ((build_cmd render c context os_args h w).0 ≡ err e)
        × (taken processes (build_cmd render c context os_args h w).1.log ≡ taken processes w.log)
  unfolding build_cmd build_here asks ◌>>=◌
  build_cmd-refused context os_args h w e here p = rw here (refused _ h w e p)

  -- On Linux, for root, the command convert ends with the error of flags that do not fit, and has
  -- started no process.
  pub convert_cmd-refused :
      (img : String) (os_args : List String) (h : Host) (w : World M) (e : String)
      → needs_docker h ≡ false
      → (validate_flags c.flags h w).0 ≡ err e
      → ((convert_cmd render c img os_args h w).0 ≡ err e)
        × (taken processes (convert_cmd render c img os_args h w).1.log ≡ taken processes w.log)
  unfolding convert_cmd convert_here asks ◌>>=◌
  convert_cmd-refused img os_args h w e here p = rw here (refused _ h w e p)
