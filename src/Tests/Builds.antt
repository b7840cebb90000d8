-- ===== src/Tests/Builds.antt =====
-- Builds and conversions on the host where every call succeeds.
use d2vm.Base.{◌+◌, ◌≤◌, ◌≡◌, refl, true, false, String, ◌⊎◌, some, List, [], ◌∷◌}
use d2vm.Host.{Event, remove_all, mkdir_all, new_uuid}
use d2vm.Host.Logs.{event_of}
use d2vm.Host.Order.{last_call}
use d2vm.Host.Mounts.{loop_device, held}
use d2vm.Host.Rules.{taken, given}
use d2vm.Dockerfile.Templates.{render}
use d2vm.Builder.Defs.{no_devices}
use d2vm.Builder.New.{builder_of}
use d2vm.Builder.Build.{build}
use d2vm.Builder.Build.Cleans.{build-releases, build-ok_releases, last_call-build}
use d2vm.Builder.Build.Completes.{build-ok}
use d2vm.ConvertOptions.{ConvertOptions, ConvertOption, zero_options, with_output, with_size}
use d2vm.Convert.{convert, request_of, built_disk}
use d2vm.Convert.Cleans.{convert-releases, last_call-convert, disk_out-built_disk, tmp_dir}
use d2vm.Tests.Machine.{
  machine, machine-Healthy, start, encrypted, debian_12, mbr, boot_files, saved,
}

abbrev built : List Event
built = (build encrypted machine (start no_devices)).1.log

build-releases_example :
    taken (held (loop_device "loop0")) built + 0 ≤ given (held (loop_device "loop0")) built + 0
build-releases_example = build-releases (loop_device "loop0") encrypted machine (start no_devices)

build-ok_releases_example :
    taken (held (loop_device "loop0")) built + 0 ≡ given (held (loop_device "loop0")) built + 0
build-ok_releases_example =
    build-ok_releases (loop_device "loop0") encrypted machine (start no_devices)
      (build-ok machine machine-Healthy encrypted mbr (start no_devices) refl)

last_call-build_example : last_call built ≡ some (remove_all "/work/disk0.d2vm.raw")
last_call-build_example = last_call-build encrypted machine (start no_devices)

abbrev options : List ConvertOption
options = with_output "/out/disk.vmdk" ∷ with_size 10000000 ∷ []

abbrev converted : List Event
converted = (convert render "debian:12" options machine (start no_devices)).1.log

convert-releases_example :
    taken (held (loop_device "loop0")) converted + 0
    ≤ given (held (loop_device "loop0")) converted + 0
convert-releases_example =
    convert-releases (loop_device "loop0") render "debian:12" options machine (start no_devices)

abbrev dir : String
dir = tmp_dir machine (start no_devices)

last_call-convert_example :
    (last_call converted ≡ some (remove_all dir))
    ⊎ (converted ≡ event_of (mkdir_all dir 0o777) false ∷ event_of new_uuid true ∷ [])
last_call-convert_example = last_call-convert render "debian:12" options machine (start no_devices)

abbrev vmdk : ConvertOptions
vmdk = record zero_options { output = "/out/disk.vmdk" }

disk_out-built_disk_example :
    (builder_of
      (request_of vmdk debian_12 "/tmp/d2vm" "b2a1")
      "x86_64"
      "vmdk"
      boot_files
      "ext4"
      encrypted.bootloader
      saved).disk_out
    ≡ built_disk vmdk "/tmp/d2vm"
disk_out-built_disk_example =
    disk_out-built_disk vmdk debian_12 "/tmp/d2vm" "b2a1" "x86_64" "vmdk" boot_files "ext4"
      encrypted.bootloader saved
