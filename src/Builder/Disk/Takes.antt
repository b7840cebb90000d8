-- ===== src/Builder/Disk/Takes.antt =====
-- What mountImg takes from the host, under the names that its fields have.
use d2vm.Host.{create_temp, close_file, remove, deferring, system, system_}
use d2vm.Base.{ℕ, ◌+◌, ◌≤◌, String, ◌≡◌, refl, true, false, ◌&&◌, [], ◌∷◌, arith}
use d2vm.Host.{Exec, ◌>>=◌, ◌>>◌, gets, modify, run}
use d2vm.Host.Rules.{Balanced, balance_rules}
use d2vm.Host.Logs.{mem-system_}
use d2vm.Host.Along.{
  Along, cost_of, Along-bind, Along-same, Along-skip, Along-deferring, Along-modify, Along-gets,
  Along-unless, Along-choice, Along-run, Along-run_out,
}
use d2vm.Host.Keeps.{Keeps, Keeps-bind, Keeps-run, Keeps-modify, keep_rules}
use d2vm.Host.Mounts.{
  Held, mounted_on, loop_device, partition_maps, open_crypt, is_loop, is_maps, is_crypt, mapped,
  mounts, held,
}
use d2vm.Text.{trim_suffix}
use d2vm.Builder.Defs.{Builder, Devices, is_luks_enabled}
use d2vm.Builder.Disk.{
  name_partitions, attach_loop, mount_crypt_root, mount_plain_root, make_boot_fs, mount_boot,
  boot_dir, mount_img,
}
use d2vm.Builder.Disk.Mounts.{one_if, attached, boot_count, with_crypt, without_crypt, holds}

loop_cost :
    (k : Held) (o : String)
    → one_if (is_loop k (trim_suffix o "\n"))
      ≡ 0 + cost_of (held k) "losetup" ("--show" ∷ "-f" ∷ "" ∷ []) o
loop_cost (loop_device dev) o = ground arith
loop_cost (mounted_on target) o = refl
loop_cost (partition_maps dev) o = refl
loop_cost (open_crypt path) o = refl

plain_mounts : (k : Held) (s o : String) → (mounts k s && (held k).named o) ≡ mounts k s
plain_mounts (loop_device dev) s o = refl
plain_mounts (mounted_on target) s o = ground arith
plain_mounts (partition_maps dev) s o = refl
plain_mounts (open_crypt path) s o = refl

plain_maps : (k : Held) (s o : String) → (is_maps k s && (held k).named o) ≡ is_maps k s
plain_maps (loop_device dev) s o = refl
plain_maps (mounted_on target) s o = refl
plain_maps (partition_maps dev) s o = ground arith
plain_maps (open_crypt path) s o = refl

plain_crypt : (k : Held) (s o : String) → (is_crypt k s && (held k).named o) ≡ is_crypt k s
plain_crypt (loop_device dev) s o = refl
plain_crypt (mounted_on target) s o = refl
plain_crypt (partition_maps dev) s o = refl
plain_crypt (open_crypt path) s o = ground arith

module _ (k : Held) (b : Builder) where
  abbrev looped : Devices → ℕ
  looped d = one_if (is_loop k d.lo_device)

  abbrev mapping : String → Devices → ℕ
  mapping lo d = one_if (is_loop k d.lo_device) + one_if (is_maps k lo)

  abbrev map_device : String → Exec Devices (Unit {0})
  map_device lo = run "kpartx" ("-a" ∷ lo ∷ []) >> modify (name_partitions b)

  map_device-Along :
      (lo : String) → Along (held k) (holds b k) looped (λ _. mapping lo) (map_device lo)
  unfolding name_partitions
  map_device-Along lo =
      Along-bind (holds b k) looped (λ _. mapping lo) (λ _. mapping lo)
        (run "kpartx" ("-a" ∷ lo ∷ [])) (λ _. modify (name_partitions b))
        (Along-run (holds b k) looped "kpartx" ("-a" ∷ lo ∷ []) (λ d. ground arith) refl
          (λ o. plain_maps k lo o))
        λ _. Along-modify (holds b k) (mapping lo) (mapping lo) (name_partitions b) (λ d. refl)

  map_device-Keeps : (lo : String) → Keeps (λ d. d.lo_device) (map_device lo)
  unfolding name_partitions
  map_device-Keeps lo =
      Keeps-bind (λ d. d.lo_device) (run "kpartx" ("-a" ∷ lo ∷ []))
        (λ _. modify (name_partitions b)) (Keeps-run (λ d. d.lo_device) _ _)
        λ _. Keeps-modify (λ d. d.lo_device) (name_partitions b) (λ d. refl)

  -- The partitions of the device that the memory names are mapped.
  map_partitions-Along :
      Along (held k) (holds b k) looped (λ _. attached k) (gets (λ d. d.lo_device) >>= map_device)
  map_partitions-Along =
      Along-gets (holds b k) looped mapping (λ d. d.lo_device) map_device map_device-Along
        map_device-Keeps

  attach_loop-Along : Along (held k) (holds b k) (λ d. 0) (λ _. attached k) (attach_loop b)
  unfolding attach_loop
  attach_loop-Along =
      Along-bind _ _
        (λ out d. 0 + cost_of (held k) "losetup" ("--show" ∷ "-f" ∷ b.disk_raw ∷ []) out.0) _ _ _
        (Along-run_out _ _ _ _ (λ d. omega arith) refl)
        λ (o, _).
          Along-bind _ _ (λ _ d. one_if (is_loop k d.lo_device)) _ _ _
            (Along-modify _ _ _ _ (λ d. loop_cost k o)) λ _. map_partitions-Along

  mount_plain_root-Along :
      is_luks_enabled b ≡ false
      → Along
          (held k)
          (holds b k)
          (attached k)
          (λ _ d. attached k d + one_if (mounts k b.mnt_point))
          (mount_plain_root b)
  unfolding mount_plain_root
  mount_plain_root-Along plain =
      Along-skip _ _ _ _ _ (λ d. ground arith) (search balance_rules) (search keep_rules)
        λ root_part.
          Along-skip _ _ _ _ _ (λ d. ground arith) (search balance_rules) (search keep_rules)
            λ _. Along-run _ _ _ _ (λ d. ground arith) refl (λ o. plain_mounts k b.mnt_point o)

  -- From the opened partition on, which the memory names.
  mount_opened-Along :
      (crypt_root root_part : String)
      → is_luks_enabled b ≡ true
      → Along
          (held k)
          (holds b k)
          (λ d. attached k d + one_if (is_crypt k (mapped crypt_root)))
          (λ _ d.
            attached k d + one_if (is_crypt k d.mapped_crypt_root) + one_if (mounts k b.mnt_point))
          (do
            modify (λ d. record d {
              crypt_part = root_part;
              root_part = "/dev/mapper/root";
              mapped_crypt_root = mapped crypt_root;
            })
            run "mkfs.ext4" (mapped crypt_root ∷ [])
            run "mount" (mapped crypt_root ∷ b.mnt_point ∷ []))
  mount_opened-Along crypt_root root_part luks =
      Along-bind _ _ (λ _ d. attached k d + one_if (is_crypt k d.mapped_crypt_root)) _ _ _
        (Along-modify _ _ _ _ (λ d. refl))
        λ _.
          Along-skip _ _ _ _ _ (λ d. ground arith) (search balance_rules) (search keep_rules)
            λ _. Along-run _ _ _ _ (λ d. ground arith) refl (λ o. plain_mounts k b.mnt_point o)

  mount_crypt_root-Along :
      (key : String)
      → is_luks_enabled b ≡ true
      → Along
          (held k)
          (holds b k)
          (attached k)
          (λ _ d.
            attached k d + one_if (is_crypt k d.mapped_crypt_root) + one_if (mounts k b.mnt_point))
          (mount_crypt_root b key)
  unfolding mount_crypt_root
  mount_crypt_root-Along key luks =
      let le : (d : Devices) → attached k d ≤ holds b k d = λ d. ground arith in
      Along-skip _ _ _ _ _ le (search balance_rules) (search keep_rules) λ _.
        Along-skip _ _ _ _ _ le (search balance_rules) (search keep_rules) λ root_part.
          Along-skip _ _ _ _ _ le (search balance_rules) (search keep_rules) λ _.
            Along-skip _ _ _ _ _ le (search balance_rules) (search keep_rules) λ uuid.
              Along-bind _ _ (λ _. attached k) _ _ _ (Along-modify _ _ _ _ (λ d. refl))
                λ _.
                  Along-skip _ _ _ _ _ le (search balance_rules) (search keep_rules) λ crypt_root.
                    Along-bind _ _ (λ _ d. attached k d + one_if (is_crypt k (mapped crypt_root))) _
                      _ _ (Along-run _ _ _ _ le refl (λ o. plain_crypt k (mapped crypt_root) o))
                      λ _. mount_opened-Along crypt_root root_part luks

  make_boot_fs-Balanced : (part : String) → Balanced (held k) (make_boot_fs b part)
  unfolding make_boot_fs
  make_boot_fs-Balanced part = search balance_rules

  make_boot_fs-Keeps :
      {V : Type 0} (view : Devices → V) (part : String) → Keeps view (make_boot_fs b part)
  unfolding make_boot_fs
  make_boot_fs-Keeps view part = search keep_rules

  mount_boot-Along :
      (down : Devices → ℕ)
      → ((d : Devices) → down d + boot_count b k ≤ holds b k d)
      → Along (held k) (holds b k) down (λ _ d. down d + boot_count b k) (mount_boot b)
  unfolding mount_boot
  mount_boot-Along down room =
      let le : (d : Devices) → down d ≤ holds b k d = λ d. omega (arith, room d) in
      Along-unless _ _ b.split_boot (one_if (mounts k (boot_dir b))) _ _
        (Along-same _ _ _ le (search balance_rules) (search keep_rules))
        λ split. Along-skip _ _ _ _ _ le (search balance_rules) (search keep_rules) λ _.
          Along-skip _ _ _ _ _ le (search balance_rules) (search keep_rules) λ part.
            Along-skip _ _ _ _ _ le (make_boot_fs-Balanced part) (make_boot_fs-Keeps _ part)
              λ _. Along-run _ _ _ _ le refl (λ o. plain_mounts k (boot_dir b) o)

  crypt_branch :
      is_luks_enabled b ≡ true
      → Along
          (held k)
          (holds b k)
          (attached k)
          (λ _. with_crypt b k)
          (do
            key ← system (create_temp "" "key")
            deferring
                (system_ (close_file key))
                (deferring (system_ (remove key)) (do mount_crypt_root b key; mount_boot b)))
  crypt_branch luks =
      Along-skip _ _ _ _ _ (λ d. ground arith) (search balance_rules) (search keep_rules)
        λ key. Along-deferring _ _ _ _ _ (search balance_rules) (mem-system_ (close_file key)) (
          Along-deferring _ _ _ _ _ (search balance_rules) (mem-system_ (remove key)) (
            Along-bind _ _ _ _ _ _ (mount_crypt_root-Along key luks)
              λ _. mount_boot-Along _ (λ d. ground arith)))

  plain_branch :
      is_luks_enabled b ≡ false
      → Along
          (held k)
          (holds b k)
          (attached k)
          (λ _. without_crypt b k)
          (do mount_plain_root b; mount_boot b)
  plain_branch plain =
      Along-bind _ _ _ _ _ _ (mount_plain_root-Along plain)
        λ _. mount_boot-Along _ (λ d. ground arith)

  -- A success of mountImg takes what the builder holds from then on, under the names that its
  -- fields have; a failure takes no more.
  pub mount_img-Along : Along (held k) (holds b k) (λ d. 0) (λ _. holds b k) (mount_img b)
  unfolding mount_img
  mount_img-Along =
      Along-bind _ _ (λ _. attached k) _ _ _ attach_loop-Along
        λ _. Along-choice _ _ (is_luks_enabled b) _ _ _ _ crypt_branch plain_branch
