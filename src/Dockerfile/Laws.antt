-- ===== src/Dockerfile/Laws.antt =====
-- What a Dockerfile that NewDockerfile returns looks like.
use mathlib.Core.Path.{subst}
use d2vm.Base.{Bool-cases, Result-cases, if◌then◌else◌}
use d2vm.Base.{
  sym, ◌||◌, String, ◌≡◌, ◌≢◌, refl, Bool, true, false, ◌⊎◌, inl, inr, Result, ok, err, arith, ◌==◌,
  eq_iff,
}
use d2vm.OsRelease.{OsRelease, supported}
use d2vm.Dockerfile.{
  Template, pick, complete, checked, Dockerfile, NetworkManager, new_dockerfile, validate,
  ubuntu_template, debian_template, alpine_template, centos_template,
}

-- The distributions that a template is for.
abbrev pub is_for : Template → String → Bool
is_for ubuntu_template id = id == "ubuntu"
is_for debian_template id = id == "debian" || id == "kali"
is_for alpine_template id = id == "alpine"
is_for centos_template id = id == "centos" || id == "rocky" || id == "almalinux"

-- The distribution is supported, and the template is one for it; the image and the password are
-- those that were asked for; the network manager is a known one, and the one that was asked
-- for, if any; on Alpine it is not netplan when that was asked for, and the CentOS family has none.
pub record Fits (r : OsRelease) (img password : String) (asked : NetworkManager)
    (luks bios efi : Bool) (d : Dockerfile) : Type 0 where
  pub same_image : d.image ≡ img
  pub same_password : d.password ≡ password
  pub template : is_for d.tmpl r.id ≡ true
  pub supported : supported r.id ≡ true
  pub known : validate d.network_manager ≡ ok tt
  pub as_asked : ((asked == "") ≡ true) ⊎ (d.network_manager ≡ asked)
  pub alpine : (d.tmpl ≢ alpine_template) ⊎ ((d.network_manager == "netplan") ≡ false)
  pub centos : (d.tmpl ≢ centos_template) ⊎ (d.network_manager ≡ "none")
  pub same_release : d.release ≡ r
  pub same_luks : d.luks ≡ luks
  pub same_bios : d.grub_bios ≡ bios
  pub same_efi : d.grub_efi ≡ efi

-- What the last part of NewDockerfile makes of the picked template.
record Completes (r : OsRelease) (img password : String) (n net : NetworkManager)
    (luks bios efi : Bool) (t : Template) (d : Dockerfile) : Type 0 where
  same_image : d.image ≡ img
  same_password : d.password ≡ password
  known : validate d.network_manager ≡ ok tt
  manager : d.network_manager ≡ (if n == "" then net else n)
  template : d.tmpl ≡ t
  same_release : d.release ≡ r
  same_luks : d.luks ≡ luks
  same_bios : d.grub_bios ≡ bios
  same_efi : d.grub_efi ≡ efi

checked-ok : (d e : Dockerfile) (v : Result (Unit {0})) → checked d v ≡ ok e → (d ≡ e) × (v ≡ ok tt)
unfolding checked
checked-ok d e (ok u) p = (cc, refl)
checked-ok d e (err x) p = cc

completed :
    (r : OsRelease) (img password : String) (n net : NetworkManager) (luks bios efi : Bool)
    (t : Template) (d : Dockerfile)
    → complete r img password n luks bios efi (ok (t, net)) ≡ ok d
    → Completes r img password n net luks bios efi t d
unfolding complete
completed r img password n net luks bios efi t d e =
    let (same, valid) = checked-ok _ d _ e in
    subst (Completes r img password n net luks bios efi t) same (record {
      same_image = refl;
      same_password = refl;
      known = valid;
      manager = refl;
      template = refl;
      same_release = refl;
      same_luks = refl;
      same_bios = refl;
      same_efi = refl;
    })

completed_err :
    (r : OsRelease) (img password : String) (n : NetworkManager) (luks bios efi : Bool) (x : String)
    (d : Dockerfile)
    → complete r img password n luks bios efi (err x) ≡ ok d
    → ⊥
unfolding complete
completed_err r img password n luks bios efi x d e = cc

module _ (r : OsRelease) (n net : NetworkManager) (t : Template) (e : pick r n ≡ ok (t, net)) where
  picked_supported : supported r.id ≡ true
  unfolding pick supported
  picked_supported = ground arith

  picked_template : is_for t r.id ≡ true
  unfolding pick
  picked_template = ground arith

  picked_alpine : (t ≢ alpine_template) ⊎ (((n == "netplan") ≡ false) × (net ≡ "ifupdown"))
  unfolding pick
  picked_alpine = ground arith

  picked_centos :
      (t ≢ centos_template) ⊎ ((((n == "") ≡ true) ⊎ ((n == "none") ≡ true)) × (net ≡ "none"))
  unfolding pick
  picked_centos = ground arith

not_netplan :
    (n net m : String)
    → m ≡ (if n == "" then net else n)
    → (n == "netplan") ≡ false
    → net ≡ "ifupdown"
    → (m == "netplan") ≡ false
not_netplan n net m e p q = elim (Bool-cases (n == "")) [
  | inl unset ↦ rw (e, unset, q)
  | inr set ↦ rw (e, set, p)
]

module _ (r : OsRelease) (img password : String) (n : NetworkManager) (luks bios efi : Bool)
    (d : Dockerfile) where
  fits :
      (t : Template) (net : NetworkManager)
      → pick r n ≡ ok (t, net)
      → Completes r img password n net luks bios efi t d
      → Fits r img password n luks bios efi d
  fits t net e c = record {
    same_image = c.same_image;
    same_password = c.same_password;
    template = subst (λ u. is_for u r.id ≡ true) (sym c.template) (picked_template r n net t e);
    supported = picked_supported r n net t e;
    known = c.known;
    as_asked = ground arith;
    alpine = elim (picked_alpine r n net t e) [
      | inl other ↦ inl (rw c.template other)
      | inr (p, q) ↦ inr (not_netplan n net d.network_manager c.manager p q)
    ];
    centos = elim (picked_centos r n net t e) [
      | inl other ↦ inl (rw c.template other)
      | inr (p, q) ↦ inr (ground (arith, eq_iff n "none", c.manager))
    ];
    same_release = c.same_release;
    same_luks = c.same_luks;
    same_bios = c.same_bios;
    same_efi = c.same_efi;
  }

  -- A Dockerfile that NewDockerfile returns fits the release and what was asked for: its template is
  -- one for the distribution, the image, the password, LUKS and GRUB are as asked, and the network
  -- manager is a known one that the distribution allows.
  pub new_dockerfile-Fits :
      new_dockerfile r img password n luks bios efi ≡ ok d → Fits r img password n luks bios efi d
  unfolding new_dockerfile
  new_dockerfile-Fits e = elim (Result-cases (pick r n)) [
    | inl ((t, net), p) ↦
        fits t net p (completed r img password n net luks bios efi t d (ap_pick (ok (t, net)) p e))
    | inr (x, p) ↦ absurd (completed_err r img password n luks bios efi x d (ap_pick (err x) p e))
  ]
    where
      ap_pick :
          (v : Result (Template × NetworkManager))
          → pick r n ≡ v
          → complete r img password n luks bios efi (pick r n) ≡ ok d
          → complete r img password n luks bios efi v ≡ ok d
      ap_pick v p e = subst (λ u. complete r img password n luks bios efi u ≡ ok d) p e
