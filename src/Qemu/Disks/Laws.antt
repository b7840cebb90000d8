-- ===== src/Qemu/Disks/Laws.antt =====
-- The disks that QEMU is given.
use mathlib.Core.Path.{subst}
use d2vm.Base.{
  ℕ, ◌+◌, ◌≡◌, sym, refl, ◌⊎◌, inl, inr, true, false, ◌==◌, List, [], ◌∷◌, Result, ok, err,
  Bool-cases, arith,
}
use d2vm.Qemu.Config.{Disk}
use d2vm.Qemu.Disks.{complete_disk, complete_disks, check_disk, is_zero}

-- A disk that QEMU can be given has a path, and a format if it has a size.
pub record IsComplete (d : Disk) : Type 0 where
  pub path : (d.path == "") ≡ false
  pub format : (is_zero d.size ≡ true) ⊎ ((d.format == "") ≡ false)

-- Nothing that was set is changed.
pub record Completes (d e : Disk) : Type 0 where
  pub path : ((d.path == "") ≡ true) ⊎ (e.path ≡ d.path)
  pub size : e.size ≡ d.size
  pub format : ((d.format == "") ≡ true) ⊎ (e.format ≡ d.format)

complete_disk-Completes : (i : ℕ) (d : Disk) → Completes d (complete_disk i d)
unfolding complete_disk
complete_disk-Completes i d = ground arith

named :
    (i : ℕ) (d : Disk)
    → (d.format == "") ≡ true
    → is_zero d.size ≡ false
    → (complete_disk i d).format ≡ "qcow2"
unfolding complete_disk
named i d f z = ground arith

complete_disk-format :
    (i : ℕ) (d : Disk)
    → (is_zero (complete_disk i d).size ≡ true) ⊎ (((complete_disk i d).format == "") ≡ false)
complete_disk-format i d =
    let c = complete_disk-Completes i d in
    elim (Bool-cases (is_zero d.size)) [
      | inl z ↦ inl (rw (c.size, z))
      | inr z ↦ inr (elim (Bool-cases (d.format == "")) [
        | inl f ↦ rw (named i d f z)
        | inr f ↦ elim c.format [ inl g ↦ cc | inr same ↦ rw (same, f) ]
      ])
    ]

abbrev pub AllComplete : List Disk → List Disk → Type 0
AllComplete [] [] = Unit
AllComplete (d ∷ disks) (e ∷ made) = IsComplete e × Completes d e × AllComplete disks made
AllComplete _ _ = ⊥

ok_injective : {A : Type 0} {a b : A} → ok a ≡ ok b → a ≡ b
ok_injective e = cc

check_disk-ok :
    (d : Disk) (rest : Result (List Disk)) (made : List Disk)
    → check_disk d rest ≡ ok made
    → ((d.path == "") ≡ false) × (others : List Disk) × (rest ≡ ok others) × (made ≡ d ∷ others)
unfolding check_disk
check_disk-ok d (ok others) made e = elim (Bool-cases (d.path == "")) [
  | inl p ↦ absurd (ground arith)
  | inr p ↦ (p, others, refl, ground arith)
]
check_disk-ok d (err x) made e = absurd (ground arith)

-- Run completes its disks one by one: each has a path, and a format if it has a size, and what was
-- set in the disk that was given stays.
pub complete_disks-AllComplete :
    (i : ℕ) (disks made : List Disk) → complete_disks i disks ≡ ok made → AllComplete disks made
unfolding complete_disks
complete_disks-AllComplete i [] made e = subst (AllComplete []) (ok_injective e) tt
complete_disks-AllComplete i (d ∷ disks) made e =
    let (path, others, rest, same) =
      check_disk-ok (complete_disk i d) (complete_disks (i + 1) disks) made e in
    subst (AllComplete (d ∷ disks)) (sym same) (
      record { path = path; format = complete_disk-format i d },
      complete_disk-Completes i d,
      complete_disks-AllComplete (i + 1) disks others rest,
    )
