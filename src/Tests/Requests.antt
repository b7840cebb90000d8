-- ===== src/Tests/Requests.antt =====
-- NewBuilder and validateFlags on the host where every call succeeds.
use d2vm.Base.{◌≡◌, refl, ok}
use d2vm.Host.{handling, ◌>>=◌, pure, raise, lift, asks, system, system_}
use d2vm.Text.{to_lower, trim_prefix, cut}
use d2vm.Text.Numbers.{atoi}
use d2vm.Text.Paths.{join_path}
use d2vm.Host.{run}
use d2vm.OsRelease.{supports_luks}
use d2vm.Config
use d2vm.BootFs
use d2vm.Image.{new_image}
use d2vm.Docker.{image_save, cmd}
use d2vm.Bootloader
use d2vm.Bootloader.{Bootloader, bootloader_by_name, BootloaderProvider, grub_efi_provider}
use d2vm.Bootloader.Grub.{new_grub_common, new_grub_efi}
use d2vm.Bootloader.Syslinux.{new_syslinux, find_mbr}
use d2vm.Bootloader.Laws.{new-RunsOn, RunsOn}
use d2vm.Host.Yields.{Yields}
use d2vm.Builder.Defs.{Builder, no_devices, Devices}
use d2vm.Builder.New.{
  new_builder, builder_of, arch_of, check_luks, check_format, check_boot_size, boot_config,
  check_dependencies, missing, combine, dependencies,
}
use d2vm.Builder.New.Accepts.{IsAccepted, new_builder-IsAccepted}
use d2vm.Flags.{validate_flags, check_platform, check_boot, validate_hosts}
use d2vm.Flags.Laws.{IsConsistent, validate_flags-IsConsistent, validate-validate_flags, fs_of}
use d2vm.Tests.Machine.{
  machine, start, request, flags, valid_flags, boot_files, mbr, saved, debian_12,
}

abbrev accepted : Builder
accepted = builder_of request "x86_64" "qcow2" boot_files "ext4" (Bootloader.syslinux mbr) saved

is_made : (new_builder request machine (start no_devices)).0 ≡ ok accepted
unfolding new_builder arch_of check_luks check_format check_boot_size boot_config check_dependencies
    missing combine dependencies supports_luks Config.config BootFs.validate bootloader_by_name
    Bootloader.new Bootloader.validate new_syslinux find_mbr new_image image_save cmd handling ◌>>=◌
    pure raise lift asks system system_ atoi to_lower run trim_prefix join_path
is_made = refl

new_builder-IsAccepted_example : IsAccepted request accepted
new_builder-IsAccepted_example =
    new_builder-IsAccepted machine (start no_devices) request accepted is_made

pub are_valid : (validate_flags flags machine (start no_devices)).0 ≡ ok valid_flags
unfolding validate_flags check_platform check_boot validate_hosts handling ◌>>=◌ pure raise lift
    asks system system_ cut
are_valid = refl

validate_flags-IsConsistent_example : IsConsistent valid_flags
validate_flags-IsConsistent_example =
    validate_flags-IsConsistent flags valid_flags machine (start no_devices) are_valid

abbrev efi : Bootloader
efi = Bootloader.grub_efi (new_grub_common boot_files debian_12) "arm64"

is_found : bootloader_by_name valid_flags.bootloader ≡ ok grub_efi_provider
unfolding bootloader_by_name
is_found = refl

efi_is_made :
    (Bootloader.new grub_efi_provider boot_files debian_12 "arm64" machine (start no_devices)).0
    ≡ ok efi
unfolding Bootloader.new new_grub_efi ◌>>=◌ pure lift
efi_is_made = refl

validate-validate_flags_example : Bootloader.validate efi (fs_of valid_flags) ≡ ok tt
validate-validate_flags_example =
    validate-validate_flags flags valid_flags machine (start no_devices) grub_efi_provider efi
      boot_files debian_12 "arm64" machine (start no_devices) are_valid is_found efi_is_made

new-RunsOn_example :
    Yields {M = Devices}
      (RunsOn "arm64")
      (Bootloader.new grub_efi_provider boot_files debian_12 "arm64")
new-RunsOn_example = new-RunsOn grub_efi_provider boot_files debian_12 "arm64"
