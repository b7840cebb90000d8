-- ===== src/Tests/Sizes.antt =====
-- Sizes, disks and ports that are read as they are written.
use d2vm.Base.{ℕ, ◌*◌, ◌≤◌, ◌≡◌, refl, inl, ◌<>◌, [], ◌∷◌, ◌++◌, ok, arith}
use d2vm.Text.{join}
use d2vm.Text.Numbers.{pos, decimal}
use d2vm.RunUtil.{new_published_port}
use d2vm.RunUtil.RoundTrip.{new_published_port-written}
use d2vm.RunUtil.Sizes.{get_disk_size_mb, convert_mb_to_gb}
use d2vm.RunUtil.Sizes.Laws.{get_disk_size_mb_lem, convert_mb_to_gb_lem}
use d2vm.RunUtil.Disks.{set_disks}
use d2vm.RunUtil.Disks.Laws.{disk_settings, set_disks-settings}

get_disk_size_mb_lem_example :
    (get_disk_size_mb (decimal 20 <> "M") ≡ ok (pos 20))
    × (get_disk_size_mb (decimal 20 <> "G") ≡ ok (pos 20480))
    × (get_disk_size_mb (decimal 20) ≡ ok (pos 20480))
get_disk_size_mb_lem_example = get_disk_size_mb_lem 20 (omega arith)

convert_mb_to_gb_lem_example :
    (g : ℕ) × (convert_mb_to_gb (pos 1500) ≡ pos g)
    × (1 ≤ g)
    × (1500 ≤ 1024 * g)
    × ((k : ℕ) → 1 ≤ k → 1500 ≤ 1024 * k → g ≤ k)
convert_mb_to_gb_lem_example = convert_mb_to_gb_lem 1500 (omega arith)

new_published_port-written_example :
    new_published_port (decimal 2222 <> (":" <> (decimal 22 <> ("/" <> "tcp"))))
    ≡ ok (record { guest = 22; host = 2222; protocol = "tcp" })
new_published_port-written_example =
    new_published_port-written 2222 22 "tcp" (omega arith, omega arith) (omega arith, omega arith)
      (inl refl)

set_disks-settings_example :
    set_disks [] (join (disk_settings "/data.qcow2" 1024 "qcow2") ",")
    ≡ ok ([] ++ (record { path = "/data.qcow2"; size = pos 1024; format = "qcow2" } ∷ []))
set_disks-settings_example =
    set_disks-settings [] "/data.qcow2" "qcow2" 1024 refl refl (omega arith)
