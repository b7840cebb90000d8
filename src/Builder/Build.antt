-- ===== src/Builder/Build.antt =====
-- Build.
pub mod Cleans
pub mod Completes
use d2vm.Base.{List, [], ◌∷◌, Result, ok, err}
use d2vm.Host.{Exec, pure, raise, ◌>>=◌, ◌>>◌, attempt, handling}
use d2vm.Builder.Defs.{Builder, Devices}
use d2vm.Builder.Disk.{clean_up, make_img, mount_img, unmount_img, convert_to_img}
use d2vm.Builder.RootFs.{copy_root_fs, setup_root_fs, install_bootloader}

-- The steps, each one only if all before it succeeded.
steps : Builder → Exec Devices (Unit {0})
steps b = do
  clean_up b
  make_img b
  mount_img b
  copy_root_fs b
  setup_root_fs b
  install_bootloader b
  unmount_img b
  convert_to_img b
  clean_up b

-- The deferred function acts on an error alone; its own errors are only logged.
unfoldable pub build : Builder → Exec Devices (Unit {0})
unfolding steps
build b =
    handling (steps b) (λ _. pure tt)
      (λ e. attempt (unmount_img b) λ _. attempt (clean_up b) λ _. raise e)
