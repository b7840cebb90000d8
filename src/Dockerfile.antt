-- ===== src/Dockerfile.antt =====
-- dockerfile.go: the Dockerfile that adds a kernel to an image, from one of the four embedded
-- templates. Templates has what they say.
pub mod Laws
pub mod Templates
use d2vm.Base.{String, ◌<>◌, Bool, not, ◌&&◌, ◌||◌, ◌==◌, Result, ok, err, text_lt, if◌then◌else◌}
use d2vm.Release
use d2vm.OsRelease.{OsRelease}

abbrev pub NetworkManager : Type 0
NetworkManager = String

abbrev pub network_manager_none : NetworkManager
network_manager_none = "none"

abbrev pub network_manager_ifupdown2 : NetworkManager
network_manager_ifupdown2 = "ifupdown"

abbrev pub network_manager_netplan : NetworkManager
network_manager_netplan = "netplan"

-- NetworkManager.Validate
unfoldable pub validate : NetworkManager → Result (Unit {0})
validate n =
    if n == network_manager_none || n == network_manager_ifupdown2 || n == network_manager_netplan
    then ok tt
    else err ("unsupported network manager: " <> n)

pub data Template : Type 0 where
  ubuntu_template debian_template alpine_template centos_template : Template

pub record Dockerfile : Type 0 where
  pub image : String
  pub password : String
  pub release : OsRelease
  pub network_manager : NetworkManager
  pub luks : Bool
  pub grub_bios : Bool
  pub grub_efi : Bool
  pub tmpl : Template

unfoldable pub grub : Dockerfile → Bool
grub d = d.grub_bios || d.grub_efi

-- The switch on the distribution: the template, and the network manager that is its default.
pick : OsRelease → NetworkManager → Result (Template × NetworkManager)
pick release network_manager =
    if release.id == Release.debian
    then ok (debian_template, network_manager_ifupdown2)
    else if release.id == Release.kali
    then ok (debian_template, network_manager_ifupdown2)
    else if release.id == Release.ubuntu
    then ok (
      ubuntu_template,
      if text_lt release.version_id "18.04"
          then network_manager_ifupdown2
          else network_manager_netplan,
    )
    else if release.id == Release.alpine
    then (if network_manager == network_manager_netplan
        then err "netplan is not supported on alpine"
        else ok (alpine_template, network_manager_ifupdown2))
    else if release.id == Release.centos
        || release.id == Release.rocky
        || release.id == Release.almalinux
    then (if not (network_manager == "") && not (network_manager == network_manager_none)
        then err "network manager is not supported on centos"
        else ok (centos_template, network_manager_none))
    else err ("unsupported distribution: " <> release.id)

-- The value that `d.NetworkManager` has at the end, when it is validated.
checked : Dockerfile → Result (Unit {0}) → Result Dockerfile
checked d (ok _) = ok d
checked d (err e) = err e

complete :
    OsRelease
    → String
    → String
    → NetworkManager
    → Bool
    → Bool
    → Bool
    → Result (Template × NetworkManager)
    → Result Dockerfile
unfolding checked
complete release img password network_manager luks grub_bios grub_efi (err e) = err e
complete release img password network_manager luks grub_bios grub_efi (ok (tmpl, net)) =
    let manager = if network_manager == "" then net else network_manager in
    checked
      (record {
        image = img;
        password = password;
        release = release;
        network_manager = manager;
        luks = luks;
        grub_bios = grub_bios;
        grub_efi = grub_efi;
        tmpl = tmpl;
      })
      (validate manager)

unfoldable pub new_dockerfile :
    OsRelease → String → String → NetworkManager → Bool → Bool → Bool → Result Dockerfile
unfolding pick complete
new_dockerfile release img password network_manager luks grub_bios grub_efi =
    complete release img password network_manager luks grub_bios grub_efi
      (pick release network_manager)
