-- ===== src/Dockerfile/Templates/Laws.antt =====
-- What stands in a rendered Dockerfile.
use mathlib.Core.Path.{subst}
use d2vm.Base.{
  String, ◌<>◌, ◌≡◌, refl, ap, ◌∙◌, ◌⊎◌, inl, inr, Bool, true, false, ◌==◌, Bool-cases,
  Result-cases, List, Result, ok, err,
}
use d2vm.Text.Pieces.{concat, flatten, Holds, Holds-flatten, Holds-section}
use d2vm.RunUtil.Sizes.{parse_int}
use d2vm.OsRelease.{OsRelease}
use d2vm.Dockerfile.{
  Dockerfile, Template, ubuntu_template, debian_template, alpine_template, centos_template,
  NetworkManager, new_dockerfile,
}
use d2vm.Dockerfile.Laws.{new_dockerfile-Fits}
use d2vm.Dockerfile.Templates.{
  sections, centos_sections, is_vault, vault_of, at_most_8, as_text, render,
}
use d2vm.Dockerfile.Templates.Centos.{centos}
use d2vm.Dockerfile.Templates.Lines.{
  of_template, luks_line, bios_line, efi_line, password_line, last_lines, InSections,
  luks-InSections, bios-InSections, efi-InSections, password-Among, text_of, beginning, end,
}

-- What a rendered Dockerfile says: the image that it starts from, and that it ends with a copy of
-- the whole file system; the password if there is one; and what LUKS and GRUB need, if they are to
-- be there.
pub record Says (d : Dockerfile) (text : String) : Type 0 where
  pub image : (rest : String) × (text ≡ "FROM " <> (d.image <> (" AS rootfs" <> rest)))
  pub copy : (front : String) × (text ≡ front <> last_lines)
  pub password : (d.password == "") ≡ false → Holds (password_line d.password) text
  pub luks : d.luks ≡ true → Holds (luks_line d.tmpl) text
  pub bios : d.grub_bios ≡ true → Holds (bios_line d.tmpl) text
  pub efi : d.grub_efi ≡ true → Holds (efi_line d.tmpl) text

module _ (old : Bool) (d : Dockerfile) where
  line-Holds :
      (t : Template) (line : String) → InSections t old d line → Holds line (text_of old d t)
  unfolding text_of
  line-Holds t line (xs, i, k) = Holds-flatten line xs (of_template t old d) i k

  password-Holds :
      (t : Template)
      → (d.password == "") ≡ false
      → Holds (password_line d.password) (text_of old d t)
  unfolding text_of
  password-Holds t e = Holds-section _ (of_template t old d) (password-Among old d t e)

  text_of-Says : Says d (text_of old d d.tmpl)
  text_of-Says = record {
    image = beginning old d d.tmpl;
    copy = end old d d.tmpl;
    password = λ e. password-Holds d.tmpl e;
    luks = λ e. line-Holds d.tmpl (luks_line d.tmpl) (luks-InSections old d d.tmpl e);
    bios = λ e. line-Holds d.tmpl (bios_line d.tmpl) (bios-InSections old d d.tmpl e);
    efi = λ e. line-Holds d.tmpl (efi_line d.tmpl) (efi-InSections old d d.tmpl e);
  }

is_vault-cases :
    (r : OsRelease)
    → ((old : Bool) × (is_vault r ≡ ok old))
      ⊎ (((r.id == "centos") ≡ true) × (e : String) × (parse_int r.version_id ≡ err e))
unfolding is_vault vault_of
is_vault-cases r = elim (Bool-cases (r.id == "centos")) [
  | inr other ↦ inl (false, rw other refl)
  | inl same ↦ elim (Result-cases (parse_int r.version_id)) [
    | inl (i, e) ↦ inl (at_most_8 i, rw same (rw e refl))
    | inr (e, p) ↦ inr (same, e, p)
  ]
]

-- All sections but those of CentOS have no condition that can fail.
sections-of_template :
    (t : Template) (d : Dockerfile)
    → ((old : Bool) × (sections t d ≡ ok (of_template t old d)))
      ⊎ ((t ≡ centos_template)
          × ((d.release.id == "centos") ≡ true)
          × (e : String) × (parse_int d.release.version_id ≡ err e))
unfolding sections centos_sections
sections-of_template ubuntu_template d = inl (false, refl)
sections-of_template debian_template d = inl (false, refl)
sections-of_template alpine_template d = inl (false, refl)
sections-of_template centos_template d = centos_cases (is_vault-cases d.release)
  where
    centos_cases :
        ((old : Bool) × (is_vault d.release ≡ ok old))
          ⊎ (((d.release.id == "centos") ≡ true)
              × (e : String) × (parse_int d.release.version_id ≡ err e))
        → ((old : Bool) × (sections centos_template d ≡ ok (of_template centos_template old d)))
          ⊎ ((centos_template ≡ centos_template)
              × ((d.release.id == "centos") ≡ true)
              × (e : String) × (parse_int d.release.version_id ≡ err e))
    centos_cases (inl (old, e)) = inl (old, rw e refl)
    centos_cases (inr (c, e, p)) = inr (refl, c, e, p)

centos_sections-ok :
    (d : Dockerfile) (v : Result Bool) (s : List (List String))
    → centos_sections d v ≡ ok s
    → (old : Bool) × (centos old d ≡ s)
unfolding centos_sections
centos_sections-ok d (ok old) s e = (old, cc)
centos_sections-ok d (err x) s e = absurd (cc)

sections-ok :
    (t : Template) (d : Dockerfile) (s : List (List String))
    → sections t d ≡ ok s
    → (old : Bool) × (of_template t old d ≡ s)
unfolding sections
sections-ok ubuntu_template d s e = (false, cc)
sections-ok debian_template d s e = (false, cc)
sections-ok alpine_template d s e = (false, cc)
sections-ok centos_template d s e = centos_sections-ok d (is_vault d.release) s e

as_text-ok :
    (r : Result (List (List String))) (text : String)
    → as_text r ≡ ok text
    → (s : List (List String)) × (r ≡ ok s) × (concat (flatten s) ≡ text)
unfolding as_text
as_text-ok (ok s) text e = (s, refl, cc)
as_text-ok (err x) text e = absurd (cc)

-- A Dockerfile that is rendered starts from the image, ends with a copy of the whole file system,
-- and has the lines for the password, for LUKS and for GRUB that it was asked for.
pub render-Says : (d : Dockerfile) (text : String) → render d ≡ ok text → Says d text
unfolding render text_of
render-Says d text e =
    let (s, p, q) = as_text-ok (sections d.tmpl d) text e in
    let (old, o) = sections-ok d.tmpl d s p in
    subst (Says d) (ap (λ s. concat (flatten s)) o ∙ q) (text_of-Says old d)

-- A Dockerfile that NewDockerfile returns is rendered, unless it is for CentOS with a version that
-- is no number.
pub new_dockerfile-renders :
    (r : OsRelease) (img password : String) (n : NetworkManager) (luks bios efi : Bool)
    (d : Dockerfile)
    → new_dockerfile r img password n luks bios efi ≡ ok d
    → ((text : String) × (render d ≡ ok text))
      ⊎ (((r.id == "centos") ≡ true) × (e : String) × (parse_int r.version_id ≡ err e))
unfolding render as_text
new_dockerfile-renders r img password n luks bios efi d e =
    let same = (new_dockerfile-Fits r img password n luks bios efi d e).same_release in
    elim (sections-of_template d.tmpl d) [
      | inl (old, p) ↦ inl (_, ap as_text p)
      | inr (c, i, x, p) ↦ inr (
          subst (λ r. ((r.id == "centos") ≡ true) × (e : String) × (parse_int r.version_id ≡ err e))
            same (i, x, p))
    ]
