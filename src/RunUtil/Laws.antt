-- ===== src/RunUtil/Laws.antt =====
-- Published ports are in range, and which value of a flag wins.
use d2vm.Base.{
  ℕ, ◌≤◌, String, ◌≡◌, ◌⊎◌, Bool, true, false, ◌==◌, Option, none, some, List, [], ◌∷◌, ok, arith,
  eq_iff,
}
use d2vm.Text.{split}
use d2vm.Text.Numbers.{parse_uint}
use d2vm.RunUtil.{
  PublishedPort, new_published_port, parse_ports, host_port, guest_port, check_ports,
  get_string_value, get_bool_value, protocol_of, first,
}

-- Both ports are in range, and the protocol is one of two.
pub record IsPort (p : PublishedPort) : Type 0 where
  pub guest : (1 ≤ p.guest) × (p.guest ≤ 65535)
  pub host : (1 ≤ p.host) × (p.host ≤ 65535)
  pub protocol : (p.protocol ≡ "tcp") ⊎ (p.protocol ≡ "udp")

abbrev InRange : PublishedPort → Type 0
InRange p = ((1 ≤ p.guest) × (p.guest ≤ 65535)) × ((1 ≤ p.host) × (p.host ≤ 65535))

check_ports-InRange :
    (host guest : ℕ) (protocol : String) (p : PublishedPort)
    → check_ports host guest protocol ≡ ok p
    → InRange p × (p.protocol ≡ protocol)
unfolding check_ports
check_ports-InRange host guest protocol p e = ground arith

guest_port-IsPort :
    (host : ℕ) (protocol : String) (guest : Option ℕ) (p : PublishedPort)
    → (protocol ≡ "tcp") ⊎ (protocol ≡ "udp")
    → guest_port host protocol guest ≡ ok p
    → IsPort p
unfolding guest_port
guest_port-IsPort host protocol none p k e = absurd (cc)
guest_port-IsPort host protocol (some guest) p k e =
    let ((g, h), same) = check_ports-InRange host guest protocol p e in
    record { guest = g; host = h; protocol = rw same k }

host_port-guest_port :
    (right : List String) (host : ℕ) (p : PublishedPort)
    → host_port right (some host) ≡ ok p
    → ((protocol_of right ≡ "tcp") ⊎ (protocol_of right ≡ "udp"))
      × (guest_port host (protocol_of right) (parse_uint 65535 (first right)) ≡ ok p)
unfolding host_port
host_port-guest_port right host p e =
    ground (arith, eq_iff (protocol_of right) "tcp", eq_iff (protocol_of right) "udp")

host_port-IsPort :
    (right : List String) (host : Option ℕ) (p : PublishedPort)
    → host_port right host ≡ ok p
    → IsPort p
unfolding host_port
host_port-IsPort right none p e = absurd (cc)
host_port-IsPort right (some host) p e =
    let (k, e') = host_port-guest_port right host p e in
    guest_port-IsPort host (protocol_of right) (parse_uint 65535 (first right)) p k e'

parse_ports-IsPort : (parts : List String) (p : PublishedPort) → parse_ports parts ≡ ok p → IsPort p
unfolding parse_ports
parse_ports-IsPort [] p e = absurd (cc)
parse_ports-IsPort (host ∷ []) p e = absurd (cc)
parse_ports-IsPort (host ∷ right ∷ rest) p e =
    host_port-IsPort (split b'/' right) (parse_uint 65535 host) p e

-- A published port that NewPublishedPort returns has both ports between 1 and 65535, and the
-- protocol tcp or udp.
pub new_published_port-IsPort :
    (publish : String) (p : PublishedPort) → new_published_port publish ≡ ok p → IsPort p
unfolding new_published_port
new_published_port-IsPort publish p e = parse_ports-IsPort (split b':' publish) p e

-- The environment never matters to GetBoolValue: its value is the flag's.
pub get_bool_value-flag :
    (env : Option String) (flag_val : Bool) → get_bool_value env flag_val ≡ flag_val
unfolding get_bool_value
get_bool_value-flag env flag_val = ground arith

-- For a variable that is set, GetStringValue takes the flag if it is neither empty nor the default,
-- then the environment's value if that is not empty, and then the default.
pub get_string_value_lem :
    (v flag_val default_val : String)
    → (((flag_val == "") ≡ false)
        × ((flag_val == default_val) ≡ false)
        × (get_string_value (some v) flag_val default_val ≡ flag_val))
      ⊎ ((((flag_val == "") ≡ true) ⊎ ((flag_val == default_val) ≡ true))
          × ((((v == "") ≡ false) × (get_string_value (some v) flag_val default_val ≡ v))
              ⊎ (((v == "") ≡ true)
                  × (get_string_value (some v) flag_val default_val ≡ default_val))))
unfolding get_string_value
get_string_value_lem v flag_val default_val = ground arith
