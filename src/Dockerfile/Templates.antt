-- ===== src/Dockerfile/Templates.antt =====
-- Dockerfile.Render: the embedded templates, executed.
pub mod Alpine
pub mod Centos
pub mod Debian
pub mod Ubuntu
pub mod Lines
pub mod Laws
use d2vm.Base.{String, ◌<>◌, Bool, true, false, List, Result, ok, err, leb, ◌==◌, if◌then◌else◌}
use d2vm.Text.Pieces.{concat, flatten}
use d2vm.OsRelease.{OsRelease}
use d2vm.Text.Numbers.{ℤ, pos, negsuc}
use d2vm.RunUtil.Sizes.{parse_int}
use d2vm.Dockerfile.{
  Dockerfile, Template, ubuntu_template, debian_template, alpine_template, centos_template,
}
use d2vm.Dockerfile.Templates.Alpine.{alpine}
use d2vm.Dockerfile.Templates.Centos.{centos}
use d2vm.Dockerfile.Templates.Debian.{debian}
use d2vm.Dockerfile.Templates.Ubuntu.{ubuntu}

-- `le (atoi .Release.VersionID) 8`
at_most_8 : ℤ → Bool
at_most_8 (pos n) = leb n 8
at_most_8 (negsuc n) = true

-- The error says nothing of the place in the template here.
vault_of : Result ℤ → Result Bool
unfolding at_most_8
vault_of (err e) = err ("template: centos.Dockerfile: error calling atoi: " <> e)
vault_of (ok i) = ok (at_most_8 i)

-- The condition of the first action for CentOS; `and` evaluates its second operand only if the
-- first one holds.
is_vault : OsRelease → Result Bool
unfolding vault_of
is_vault r = if r.id == "centos" then vault_of (parse_int r.version_id) else ok false

centos_sections : Dockerfile → Result Bool → Result (List (List String))
centos_sections d (err e) = err e
centos_sections d (ok old) = ok (centos old d)

sections : Template → Dockerfile → Result (List (List String))
unfolding centos_sections is_vault
sections ubuntu_template d = ok (ubuntu d)
sections debian_template d = ok (debian d)
sections alpine_template d = ok (alpine d)
sections centos_template d = centos_sections d (is_vault d.release)

as_text : Result (List (List String)) → Result String
as_text (err e) = err e
as_text (ok s) = ok (concat (flatten s))

-- Render, and what it writes.
unfoldable pub render : Dockerfile → Result String
unfolding sections as_text
render d = as_text (sections d.tmpl d)
