-- ===== src/Builder/Build/Cleans.antt =====
-- What a build leaves behind on its host, whatever fails on the way.
use d2vm.Base.{ℕ, refl}
use d2vm.Base.{◌+◌, ◌≤◌, ◌≡◌, some, List, Result, Result-cases, ok, err, inl, inr, arith}
use d2vm.Host.{remove_all, Event, Exec, Host, World, attempt, handling, ◌>>=◌}
use d2vm.Host.Rules.{taken, given, Balanced}
use d2vm.Host.Logs.{log-system_}
use d2vm.Host.Order.{last_call, Leaves, Leaves-bind}
use d2vm.Host.Debts.{due-nothing}
use d2vm.Host.Within.{Within, Settled, Settled-of_Moves}
use d2vm.Host.Along.{Along, Along-bind, Along-same, Along-skip}
use d2vm.Host.Keeps.{Keeps, Keeps-through}
use d2vm.Host.Mounts.{Held, held}
use d2vm.Builder.Defs.{Builder, Devices, no_devices}
use d2vm.Builder.Disk.{clean_up, unmount_img}
use d2vm.Builder.Disk.Mounts.{
  holds, clean_up-Balanced, make_img-Balanced, unmount_img-Moves, convert_to_img-Balanced,
}
use d2vm.Builder.RootFs.Laws.{
  copy_root_fs-Balanced, setup_root_fs-Balanced, install_bootloader-Balanced,
}
use d2vm.Builder.Disk.Takes.{mount_img-Along}
use d2vm.Builder.RootFs.Names.{
  names, copy_root_fs-Keeps, setup_root_fs-Keeps, install_bootloader-Keeps,
}
use d2vm.Builder.Build.{steps, build}

module _ (k : Held) (b : Builder) where
  unmount_img-Along : Along (held k) (holds b k) (holds b k) (λ _ d. 0) (unmount_img b)
  unmount_img-Along = record {
    at = λ h w.
        let r = (unmount_img b h w).0 in
        rw (due-nothing r) (
          Settled-of_Moves (held k) (holds b k (unmount_img b h w).1.mem) (holds b k w.mem) 0 w.log
            (unmount_img b h w).1.log r (unmount_img-Moves k b h w) (omega arith));
  }

  -- What is held stays the same along an action that leaves the names alone.
  holding-Keeps : {A : Type 0} (m : Exec Devices A) → Keeps names m → Keeps (holds b k) m
  holding-Keeps m p =
      Keeps-through names
        (λ (lo, root). holds b k (record no_devices { lo_device = lo; mapped_crypt_root = root })) m
        p

  -- A step of the build between mountImg and unmountImg.
  holding-Along :
      {A B : Type 0} (up : B → Devices → ℕ) (m : Exec Devices A) (f : A → Exec Devices B)
      → Balanced (held k) m
      → Keeps names m
      → ((a : A) → Along (held k) (holds b k) (holds b k) up (f a))
      → Along (held k) (holds b k) (holds b k) up (m >>= f)
  holding-Along up m f b' p rest =
      Along-skip (holds b k) (holds b k) up m f (λ d. omega arith) b' (holding-Keeps m p) rest

  free-Along :
      {A B : Type 0} (up : B → Devices → ℕ) (m : Exec Devices A) (f : A → Exec Devices B)
      → Balanced (held k) m
      → ((a : A) → Along (held k) (holds b k) (λ d. 0) up (f a))
      → Along (held k) (holds b k) (λ d. 0) up (m >>= f)
  free-Along up m f b' rest =
      Along-skip (holds b k) (λ d. 0) up m f (λ d. omega arith) b' (record { at = λ h w. refl })
        rest

  steps-Along : Along (held k) (holds b k) (λ d. 0) (λ _ d. 0) (steps b)
  unfolding steps
  steps-Along = free-Along _ _ _ (clean_up-Balanced k b) λ _.
      free-Along _ _ _ (make_img-Balanced k b) λ _.
        Along-bind (holds b k) _ (λ _. holds b k) _ _ _ (mount_img-Along k b)
          λ _. holding-Along _ _ _ (copy_root_fs-Balanced k b) (copy_root_fs-Keeps b) λ _.
            holding-Along _ _ _ (setup_root_fs-Balanced k b) (setup_root_fs-Keeps b) λ _.
              holding-Along _ _ _ (install_bootloader-Balanced k b) (install_bootloader-Keeps b)
                λ _.
                  Along-bind (holds b k) _ (λ _ d. 0) _ _ _ unmount_img-Along
                    λ _. free-Along _ _ _ (convert_to_img-Balanced k b) λ _.
                      Along-same (holds b k) (λ d. 0) _ (λ d. omega arith) (clean_up-Balanced k b)
                        (record { at = λ h w. refl })

  -- A build that succeeds has tried to give back each resource, by its own name, exactly as often
  -- as it took it: each directory that was mounted on, each loop device, each device whose
  -- partitions were mapped and each encrypted partition that was opened. This holds on every host.
  pub build-ok_releases :
      (h : Host) (w : World Devices)
      → (build b h w).0 ≡ ok tt
      → taken (held k) (build b h w).1.log + given (held k) w.log
        ≡ given (held k) (build b h w).1.log + taken (held k) w.log
  unfolding build handling attempt ◌>>=◌
  build-ok_releases h w e = ground (arith, (steps-Along).at h w, due-nothing (steps b h w).0)

  -- Whatever fails on whatever host, a build tries to give back each directory that it mounted on,
  -- each loop device, each device whose partitions it mapped and each encrypted partition that it
  -- opened, by its own name, at least as often as it took it.
  pub build-releases :
      (h : Host) (w : World Devices)
      → taken (held k) (build b h w).1.log + given (held k) w.log
        ≤ given (held k) (build b h w).1.log + taken (held k) w.log
  unfolding build handling attempt ◌>>=◌
  build-releases h w =
      let w' = (steps b h w).1 in
      ground (
        arith,
        (steps-Along).at h w,
        due-nothing (steps b h w).0,
        unmount_img-Moves k b h w',
        (clean_up-Balanced k b).at h (unmount_img b h w').1,
      )

module _ (b : Builder) where
  abbrev CleanedUp : List Event → Type 0
  CleanedUp log = last_call log ≡ some (remove_all b.disk_raw)

  CleanedUp-clean_up : (h : Host) (w : World Devices) → CleanedUp (clean_up b h w).1.log
  unfolding clean_up
  CleanedUp-clean_up h w = rw (log-system_ (remove_all b.disk_raw) h w)

  steps-CleanedUp : Leaves CleanedUp (steps b)
  unfolding steps
  steps-CleanedUp =
      search (Leaves-bind, λ (h : Host) (w : World Devices). CleanedUp-clean_up h w) depth 12

  -- The last thing that Build does, on success and on every failure, is to remove the raw disk.
  pub last_call-build :
      (h : Host) (w : World Devices) → last_call (build b h w).1.log ≡ some (remove_all b.disk_raw)
  unfolding build handling attempt ◌>>=◌
  last_call-build h w = elim (Result-cases (steps b h w).0) [
    | inl (a, e) ↦ rw e (steps-CleanedUp.at h w a e)
    | inr (x, e) ↦ rw e (CleanedUp-clean_up h (unmount_img b h (steps b h w).1).1)
  ]

module _ (k : Held) (b : Builder) where
  -- Build as a step of Convert.
  pub build-Within : Within (held k) 0 0 0 (build b)
  build-Within = record {
    at = λ h w. settle h w (build b h w).0 (build-releases k b h w) (build-ok_releases k b h w);
  }
    where
      settle :
          (h : Host) (w : World Devices) (r : Result (Unit {0}))
          → taken (held k) (build b h w).1.log + given (held k) w.log
            ≤ given (held k) (build b h w).1.log + taken (held k) w.log
          → (r ≡ ok tt
              → taken (held k) (build b h w).1.log + given (held k) w.log
                ≡ given (held k) (build b h w).1.log + taken (held k) w.log)
          → Settled (held k) 0 0 0 w.log (build b h w).1.log r
      settle h w (ok a) le eq = omega (arith, eq refl)
      settle h w (err e) le eq = omega arith
