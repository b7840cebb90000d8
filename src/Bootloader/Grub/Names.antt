-- ===== src/Bootloader/Grub/Names.antt =====
-- Setting up a boot loader leaves the memory alone.
use d2vm.Base.{String, List, [], ◌∷◌}
use d2vm.Host.{Exec}
use d2vm.Host.Keeps.{
  Keeps, Keeps-bind, Keeps-deferring, Keeps-attempt, Keeps-handling, Keeps-run, keep_rules,
}
use d2vm.Bootloader.Grub.{
  GrubCommon, clean, bind_mounts, prepare, prepared, install, mkconfig, setup_grub, setup_grub_bios,
  setup_grub_efi,
}

module _ {M V : Type 0} (view : M → V) where
  clean-Keeps : (root : String) (vs : List String) → Keeps view (clean root vs)
  unfolding clean
  clean-Keeps root [] = search keep_rules
  clean-Keeps root (v ∷ vs) = Keeps-attempt view _ _ (Keeps-run view _ _) λ _. clean-Keeps root vs

  bind_mounts-Keeps :
      (root : String) (vs done : List String) → Keeps view (bind_mounts root vs done)
  unfolding bind_mounts
  bind_mounts-Keeps root [] done = search keep_rules
  bind_mounts-Keeps root (v ∷ vs) done =
      Keeps-handling view _ _ _ (Keeps-run view _ _) (λ _. bind_mounts-Keeps root vs _)
        λ e. search (keep_rules, clean-Keeps)

  prepare-Keeps :
      (g : GrubCommon) (dev root cmdline : String) → Keeps view (prepare g dev root cmdline)
  unfolding prepare
  prepare-Keeps g dev root cmdline = search (keep_rules, bind_mounts-Keeps) depth 9

  install-Keeps : (g : GrubCommon) (args : List String) → Keeps view (install g args)
  unfolding install
  install-Keeps g args = search keep_rules

  mkconfig-Keeps : (g : GrubCommon) → Keeps view (mkconfig g)
  unfolding mkconfig
  mkconfig-Keeps g = search keep_rules

  prepared-Keeps :
      (g : GrubCommon) (dev root cmdline : String) (body : GrubCommon → Exec M (Unit {0}))
      → ((g' : GrubCommon) → Keeps view (body g'))
      → Keeps view (prepared g dev root cmdline body)
  unfolding prepared
  prepared-Keeps g dev root cmdline body p =
      Keeps-bind view _ _ (prepare-Keeps g dev root cmdline)
        λ (g', unmounts). Keeps-deferring view _ _ (clean-Keeps root unmounts) (p g')

  ruleset grub_rules = (keep_rules, install-Keeps, mkconfig-Keeps, prepared-Keeps)

  pub setup_grub-Keeps :
      (g : GrubCommon) (dev root cmdline : String) → Keeps view (setup_grub g dev root cmdline)
  unfolding setup_grub
  setup_grub-Keeps g dev root cmdline = search grub_rules

  pub setup_grub_bios-Keeps :
      (g : GrubCommon) (dev root cmdline : String) → Keeps view (setup_grub_bios g dev root cmdline)
  unfolding setup_grub_bios
  setup_grub_bios-Keeps g dev root cmdline = search grub_rules

  pub setup_grub_efi-Keeps :
      (arch : String) (g : GrubCommon) (dev root cmdline : String)
      → Keeps view (setup_grub_efi arch g dev root cmdline)
  unfolding setup_grub_efi
  setup_grub_efi-Keeps arch g dev root cmdline = search grub_rules
