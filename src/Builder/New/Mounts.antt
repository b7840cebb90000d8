-- ===== src/Builder/New/Mounts.antt =====
-- NewBuilder mounts nothing and opens no device.
use d2vm.Base.{String, List, [], ◌∷◌}
use d2vm.Host.Rules.{Balanced, Balanced-bind, Balanced-handling, balance_rules}
use d2vm.Host.Mounts.{Held, held}
use d2vm.OsRelease.{OsRelease}
use d2vm.Config.{Config}
use d2vm.Bootloader.{
  Bootloader, BootloaderProvider, new, syslinux_provider, grub_provider, grub_bios_provider,
  grub_efi_provider,
}
use d2vm.Bootloader.Syslinux.{find_mbr, new_syslinux}
use d2vm.Docker.{image_save, cmd}
use d2vm.Image.{new_image}
use d2vm.Builder.New.{Request, missing, combine, check_dependencies, new_builder}

module _ (k : Held) {M : Type 0} where
  find_mbr-Balanced : (paths : List String) → Balanced (held k) {M = M} (find_mbr paths)
  unfolding find_mbr
  find_mbr-Balanced [] = search balance_rules
  find_mbr-Balanced (v ∷ paths) =
      Balanced-handling _ _ _ (search balance_rules) (λ _. search balance_rules)
        λ _. find_mbr-Balanced paths

  new_syslinux-Balanced :
      (c : Config) (arch : String) → Balanced (held k) {M = M} (new_syslinux c arch)
  unfolding new_syslinux
  new_syslinux-Balanced c arch = search (balance_rules, find_mbr-Balanced)

  new-Balanced :
      (p : BootloaderProvider) (c : Config) (r : OsRelease) (arch : String)
      → Balanced (held k) {M = M} (new p c r arch)
  unfolding new
  new-Balanced syslinux_provider c r arch = search (balance_rules, new_syslinux-Balanced)
  new-Balanced grub_provider c r arch = search balance_rules
  new-Balanced grub_bios_provider c r arch = search balance_rules
  new-Balanced grub_efi_provider c r arch = search balance_rules

  missing-Balanced : (deps : List String) → Balanced (held k) {M = M} (missing deps)
  unfolding missing
  missing-Balanced [] = search balance_rules
  missing-Balanced (v ∷ deps) =
      let rest = missing-Balanced deps in
      Balanced-handling _ _ _ (search balance_rules) (λ _. rest)
        λ e. Balanced-bind _ _ rest λ errors. search balance_rules

  pub combine-Balanced : (errors : List String) → Balanced (held k) {M = M} (combine errors)
  unfolding combine
  combine-Balanced [] = search balance_rules
  combine-Balanced (e ∷ errors) = search balance_rules

  check_dependencies-Balanced :
      (bl : Bootloader) → Balanced (held k) {M = M} (check_dependencies bl)
  unfolding check_dependencies
  check_dependencies-Balanced bl = search (balance_rules, missing-Balanced, combine-Balanced)

  new_image-Balanced : (tag path : String) → Balanced (held k) {M = M} (new_image tag path)
  unfolding new_image image_save cmd
  new_image-Balanced tag path = search balance_rules depth 8

  pub new_builder-Balanced : (q : Request) → Balanced (held k) {M = M} (new_builder q)
  unfolding new_builder
  new_builder-Balanced q =
      search (balance_rules, new-Balanced, new_image-Balanced, check_dependencies-Balanced) depth 20
