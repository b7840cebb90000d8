-- ===== src/Bootloader/Grub/Mounts.antt =====
-- What the bind mounts of the GRUB boot loaders leave behind.
use d2vm.Base.{
  ℕ, ◌+◌, String, ◌<>◌, ◌≡◌, List, [], ◌∷◌, ◌++◌, Result, ok, err, if◌then◌else◌, arith,
}
use d2vm.Text.Paths.{join_path}
use d2vm.Host.{Host, World, Exec, ◌>>=◌, attempt, handling, run}
use d2vm.Host.Rules.{Moves, Balanced, balance_rules}
use d2vm.Host.Logs.{log-run}
use d2vm.Host.Debts.{
  Owes, nothing, due-nothing, Owes-Balanced, Balanced-Owes, Owes-pure, Owes-bind, Owes-deferring,
}
use d2vm.Host.Mounts.{Held, mounts, held}
use d2vm.Bootloader.Grub.{
  GrubCommon, clean, bind_mounts, prepare, prepared, install, mkconfig, setup_grub, setup_grub_bios,
  setup_grub_efi,
}

module _ (k : Held) (root : String) where
  -- How many of the directories are bound as `k` counts.
  abbrev bound : List String → ℕ
  bound [] = 0
  bound (v ∷ vs) = (if mounts k (join_path (root ∷ v ∷ [])) then 1 else 0) + bound vs

  bound-append : (us vs : List String) → bound (us ++ vs) ≡ bound us + bound vs
  bound-append [] vs = omega arith
  bound-append (u ∷ us) vs = omega (arith, bound-append us vs)

  abbrev bound_by : Result (List String) → ℕ
  bound_by (ok vs) = bound vs
  bound_by (err e) = 0

module _ {M : Type 0} (k : Held) (root : String) where
  clean-Moves :
      (vs : List String) (h : Host) (w : World M)
      → Moves (held k) 0 (bound k root vs) w.log (clean root vs h w).1.log
  unfolding clean attempt ◌>>=◌
  clean-Moves [] h w = omega arith
  clean-Moves (v ∷ vs) h w = ground (
    arith,
    log-run "umount" (join_path (root ∷ v ∷ []) ∷ []) h w,
    clean-Moves vs h (run "umount" (join_path (root ∷ v ∷ []) ∷ []) h w).1,
  )

  bind_mounts-Moves :
      (vs done : List String) (h : Host) (w : World M)
      → Moves
          (held k)
          (bound_by k root (bind_mounts root vs done h w).0)
          (bound k root done)
          w.log
          (bind_mounts root vs done h w).1.log
  unfolding bind_mounts handling ◌>>=◌
  bind_mounts-Moves [] done h w = omega arith
  bind_mounts-Moves (v ∷ vs) done h w =
      let args = "-o" ∷ "bind" ∷ ("/" <> v) ∷ join_path (root ∷ v ∷ []) ∷ [] in
      let w' = (run "mount" args h w).1 in
      ground (
        arith,
        log-run "mount" args h w,
        bind_mounts-Moves vs (done ++ v ∷ []) h w',
        bound-append k root done (v ∷ []),
        clean-Moves done h w',
      )

  clean-Owes : (vs : List String) → Owes (held k) {M = M} (bound k root vs) nothing (clean root vs)
  clean-Owes vs = record {
    at = λ h w. omega (arith, clean-Moves vs h w, due-nothing (clean root vs h w).0);
  }

  bind_mounts-Owes :
      (vs done : List String)
      → Owes (held k) {M = M} (bound k root done) (bound k root) (bind_mounts root vs done)
  bind_mounts-Owes vs done = record { at = λ h w. ground (arith, bind_mounts-Moves vs done h w) }

module _ {M : Type 0} (k : Held) where
  install-Balanced :
      (g : GrubCommon) (args : List String) → Balanced (held k) {M = M} (install g args)
  unfolding install
  install-Balanced g args = search balance_rules

  mkconfig-Balanced : (g : GrubCommon) → Balanced (held k) {M = M} (mkconfig g)
  unfolding mkconfig
  mkconfig-Balanced g = search balance_rules

  prepare-Owes :
      (g : GrubCommon) (dev root cmdline : String)
      → Owes (held k) {M = M} 0 (λ r. bound k root r.1) (prepare g dev root cmdline)
  unfolding prepare
  prepare-Owes g dev root cmdline =
      Owes-bind nothing _ 0 _ _ (Owes-Balanced _ (search balance_rules)) λ _.
        Owes-bind nothing _ 0 _ _ (Owes-Balanced _ (search balance_rules)) λ _.
          Owes-bind (bound k root) _ 0 _ _ (bind_mounts-Owes k root _ [])
            λ unmounts. Owes-pure (λ r. bound k root r.1) (_, unmounts)

  prepared-Balanced :
      (g : GrubCommon) (dev root cmdline : String) (body : GrubCommon → Exec M (Unit {0}))
      → ((g' : GrubCommon) → Balanced (held k) (body g'))
      → Balanced (held k) (prepared g dev root cmdline body)
  unfolding prepared
  prepared-Balanced g dev root cmdline body b = Balanced-Owes _ (
      Owes-bind (λ r. bound k root r.1) nothing 0 _ _ (prepare-Owes g dev root cmdline)
        λ (g', unmounts). Owes-deferring _ _ _ (clean-Owes k root unmounts) (b g'))

  ruleset grub_rules = (balance_rules, install-Balanced, mkconfig-Balanced, prepared-Balanced)

  pub setup_grub-Balanced :
      (g : GrubCommon) (dev root cmdline : String)
      → Balanced (held k) {M = M} (setup_grub g dev root cmdline)
  unfolding setup_grub
  setup_grub-Balanced g dev root cmdline = search grub_rules

  pub setup_grub_bios-Balanced :
      (g : GrubCommon) (dev root cmdline : String)
      → Balanced (held k) {M = M} (setup_grub_bios g dev root cmdline)
  unfolding setup_grub_bios
  setup_grub_bios-Balanced g dev root cmdline = search grub_rules

  pub setup_grub_efi-Balanced :
      (arch : String) (g : GrubCommon) (dev root cmdline : String)
      → Balanced (held k) {M = M} (setup_grub_efi arch g dev root cmdline)
  unfolding setup_grub_efi
  setup_grub_efi-Balanced arch g dev root cmdline = search grub_rules
