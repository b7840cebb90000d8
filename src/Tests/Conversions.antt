-- ===== src/Tests/Conversions.antt =====
-- A whole conversion on the host where every call succeeds.
use d2vm.Base.{String, ◌≡◌, refl, inl, inr, true, false, List, [], ◌∷◌, Result, ok, err}
use d2vm.Text.{to_lower, trim_prefix}
use d2vm.Text.Paths.{ext}
use d2vm.OsRelease.{OsRelease, parse_os_release, get_env, supported}
use d2vm.Dockerfile.{Dockerfile, new_dockerfile, validate, debian_template}
use d2vm.Dockerfile.Templates.{render}
use d2vm.ConvertOptions.{
  ConvertOptions, ConvertOption, zero_options, apply, has_grub_bios, has_grub_efi, with_size,
  with_password, with_output, with_cmd_line_extra, with_network_manager, with_boot_loader, with_raw,
  with_split_boot, with_boot_size, with_boot_fs, with_luks_password, with_keep_cache, with_platform,
  with_pull, with_hostname, with_dns, with_dns_search, with_extra_hosts,
}
use d2vm.Builder.New.{check_format}
use d2vm.Builder.New.Completes.{Passes}
use d2vm.Convert.{convert, format_of, request_of}
use d2vm.Convert.Completes.{Suits, convert-ok}
use d2vm.Host.{handling, ◌>>=◌, pure, raise, lift, asks, system, system_}
use d2vm.Flags.{Flags, validate_flags, check_platform, check_boot, validate_hosts}
use d2vm.Commands.{CommandFlags, options_of, needs_docker, is_root, build_cmd}
use d2vm.Commands.Completes.{build_cmd-ok}
use d2vm.Tests.Targets.{settings}
use d2vm.Tests.Machine.{machine, machine-Healthy, start}

abbrev debian : OsRelease
debian = record {
  id = "debian";
  name = "";
  version_id = "12";
  version = "";
  version_code_name = "";
}

abbrev vmdk : List ConvertOption
vmdk = with_output "/out/disk.vmdk" ∷ with_size 10000000 ∷ with_platform "linux/amd64" ∷ []

abbrev made : Dockerfile
made = record {
  image = "debian:12";
  password = "";
  release = debian;
  network_manager = "ifupdown";
  luks = false;
  grub_bios = false;
  grub_efi = false;
  tmpl = debian_template;
}

abbrev written : Result String → String
written (ok text) = text
written (err e) = e

vmdk-Passes :
    (tmp_path img_uuid : String)
    → Passes (request_of (apply vmdk zero_options) debian tmp_path img_uuid)
unfolding request_of apply with_output with_size with_platform check_format format_of to_lower
    trim_prefix ext supported
vmdk-Passes tmp_path img_uuid = record {
  platform = refl;
  luks = inl refl;
  format = ("vmdk", refl);
  boot_size = inl refl;
  release = refl;
  boot_fs = inl refl;
  boot_loader = inl refl;
}

vmdk-Suits : Suits render machine "debian:12" (apply vmdk zero_options) debian
unfolding apply with_output with_size with_platform parse_os_release get_env to_lower new_dockerfile
    validate has_grub_bios has_grub_efi render
vmdk-Suits = record {
  release = λ log. refl;
  request = vmdk-Passes;
  dockerfile = inr (made, refl, written (render made), refl);
}

convert-ok_example : (convert render "debian:12" vmdk machine (start tt)).0 ≡ ok tt
convert-ok_example =
    convert-ok machine machine-Healthy render "debian:12" vmdk debian (start tt) vmdk-Suits

-- The command build, with the tag of the image that the conversion starts from.
abbrev forced : Flags
forced = record {
  platform = "linux/amd64";
  bootloader = "";
  luks_password = "";
  split_boot = false;
  boot_fs = "";
  push = false;
  tag = "debian:12";
  output = "/out/disk.vmdk";
  force = true;
  hosts = [];
  extra_hosts = [];
}

abbrev with_syslinux : Flags
with_syslinux = record forced { bootloader = "syslinux" }

abbrev command_flags : CommandFlags
command_flags = record {
  flags = forced;
  size = "10G";
  password = "";
  cmd_line_extra = "";
  network_manager = "";
  raw = false;
  boot_size = 100;
  keep_cache = false;
  pull = true;
  hostname = "vm";
  dns = [];
  dns_search = [];
  container_disk_tag = "quay.io/disk:1";
  file = "";
  build_args = [];
  settings = settings;
}

is_here : needs_docker machine ≡ false
unfolding needs_docker is_root
is_here = refl

are_accepted : (validate_flags forced machine (start tt)).0 ≡ ok with_syslinux
unfolding validate_flags check_platform check_boot validate_hosts handling ◌>>=◌ pure raise lift
    asks system system_
are_accepted = refl

abbrev asked : ConvertOptions
asked = apply (options_of command_flags with_syslinux 10 false) zero_options

asked-Passes : (tmp_path img_uuid : String) → Passes (request_of asked debian tmp_path img_uuid)
unfolding request_of apply options_of with_size with_password with_output with_cmd_line_extra
    with_network_manager with_boot_loader with_raw with_split_boot with_boot_size with_boot_fs
    with_luks_password with_keep_cache with_platform with_pull with_hostname with_dns
    with_dns_search with_extra_hosts check_format format_of to_lower trim_prefix ext supported
asked-Passes tmp_path img_uuid = record {
  platform = refl;
  luks = inl refl;
  format = ("vmdk", refl);
  boot_size = inl refl;
  release = refl;
  boot_fs = inl refl;
  boot_loader = inr refl;
}

asked-Suits : Suits render machine "debian:12" asked debian
unfolding apply options_of with_size with_password with_output with_cmd_line_extra
    with_network_manager with_boot_loader with_raw with_split_boot with_boot_size with_boot_fs
    with_luks_password with_keep_cache with_platform with_pull with_hostname with_dns
    with_dns_search with_extra_hosts parse_os_release get_env to_lower new_dockerfile validate
    has_grub_bios has_grub_efi render
asked-Suits = record {
  release = λ log. refl;
  request = asked-Passes;
  dockerfile = inr (made, refl, written (render made), refl);
}

build_cmd-ok_example : (build_cmd render command_flags "." [] machine (start tt)).0 ≡ ok tt
build_cmd-ok_example =
    build_cmd-ok machine machine-Healthy render command_flags "." [] (start tt) with_syslinux 10
      debian is_here are_accepted refl asked-Suits
