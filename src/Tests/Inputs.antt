-- ===== src/Tests/Inputs.antt =====
-- The checks of texts at concrete inputs.
use d2vm.Base.{String, ◌≡◌, refl, ok, true, false, [], ◌∷◌, All, List, ◌↔◌}
use d2vm.Text.{cut}
use d2vm.Dockerfile.{Dockerfile, new_dockerfile, validate, debian_template}
use d2vm.Dockerfile.Laws.{Fits, new_dockerfile-Fits}
use d2vm.Flags.{validate_hosts}
use d2vm.Flags.Maps.{
  find, last_value, NamesDiffer, IsEntry, validate_hosts-Refines, validate_hosts-accepts,
}
use d2vm.Text.{split, to_lower, trim_space}
use d2vm.Text.Numbers.{parse_uint}
use d2vm.RunUtil.{PublishedPort, new_published_port, get_bool_value}
use d2vm.RunUtil.Laws.{IsPort, new_published_port-IsPort, get_bool_value-flag}
use d2vm.Base.{some}
use d2vm.Tests.Machine.{debian_12}

abbrev made : Dockerfile
made = record {
  image = "debian:12";
  password = "root";
  release = debian_12;
  network_manager = "ifupdown";
  luks = true;
  grub_bios = false;
  grub_efi = true;
  tmpl = debian_template;
}

new_dockerfile-Fits_example : Fits debian_12 "debian:12" "root" "" true false true made
unfolding new_dockerfile validate
new_dockerfile-Fits_example =
    new_dockerfile-Fits debian_12 "debian:12" "root" "" true false true made refl

abbrev dns_port : PublishedPort
dns_port = record { guest = 53; host = 8053; protocol = "udp" }

new_published_port-IsPort_example : IsPort dns_port
unfolding new_published_port split parse_uint to_lower trim_space
new_published_port-IsPort_example = new_published_port-IsPort "8053:53/UDP" dns_port refl

get_bool_value-flag_example : get_bool_value (some "true") false ≡ false
get_bool_value-flag_example = get_bool_value-flag (some "true") false

abbrev host_flags : List String
host_flags = "db:10.0.0.1" ∷ "web:10.0.0.3" ∷ "db:10.0.0.2" ∷ []

abbrev host_pairs : List (String × String)
host_pairs = ("db", "10.0.0.2") ∷ ("web", "10.0.0.3") ∷ []

validate_hosts-Refines_example : (find host_pairs ≡ last_value host_flags) × NamesDiffer host_pairs
unfolding validate_hosts cut
validate_hosts-Refines_example = validate_hosts-Refines host_flags host_pairs refl

validate_hosts-accepts_example :
    ((out : List (String × String)) × (validate_hosts host_flags ≡ ok out)) ↔ All IsEntry host_flags
validate_hosts-accepts_example = validate_hosts-accepts host_flags
