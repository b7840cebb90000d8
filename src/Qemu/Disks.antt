-- ===== src/Qemu/Disks.antt =====
-- pkg/qemu/qemu.go: the disks that Run completes, in front of which it puts the image.
pub mod Laws
use d2vm.Base.{
  ℕ, ◌+◌, String, ◌<>◌, Bool, true, false, not, ◌&&◌, ◌==◌, List, [], ◌∷◌, Result, ok, err, eqb,
  if◌then◌else◌,
}
use d2vm.Text.Numbers.{ℤ, pos, negsuc, decimal}
use d2vm.Qemu.Config.{Disk}

unfoldable pub is_zero : ℤ → Bool
is_zero (pos n) = eqb n 0
is_zero (negsuc n) = false

-- The body of the loop, before its test.
unfoldable pub complete_disk : ℕ → Disk → Disk
unfolding is_zero
complete_disk i d =
    let id = if eqb i 0 then "" else decimal i in
    let d₁ =
      if not (is_zero d.size) && (d.format == "") then record d { format = "qcow2" } else d in
    if not (is_zero d₁.size) && (d₁.path == "")
    then record d₁ { path = "disk" <> (id <> ".img") }
    else d₁

prepend_ok : Disk → Result (List Disk) → Result (List Disk)
prepend_ok d (ok disks) = ok (d ∷ disks)
prepend_ok d (err e) = err e

check_disk : Disk → Result (List Disk) → Result (List Disk)
unfolding prepend_ok
check_disk d rest =
    if d.path == "" then err "disk specified with no size or name" else prepend_ok d rest

-- The loop from index `i` on.
unfoldable pub complete_disks : ℕ → List Disk → Result (List Disk)
unfolding check_disk
complete_disks i [] = ok []
complete_disks i (d ∷ disks) = check_disk (complete_disk i d) (complete_disks (i + 1) disks)
