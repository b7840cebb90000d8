-- ===== src/RunUtil.antt =====
-- cmd/d2vm/run/util.go: the values of flags that the environment may set, and published ports.
pub mod Laws
pub mod RoundTrip
pub mod Sizes
pub mod Progress
pub mod Disks
use d2vm.Base.{
  ℕ, ◌^◌, ◌%◌, String, ◌<>◌, Bool, true, false, not, ◌&&◌, ◌||◌, ◌==◌, Option, none, some, List, [],
  ◌∷◌, Result, ok, err, ltb, if◌then◌else◌,
}
use d2vm.Text.{split, to_lower, trim_space}
use d2vm.Text.Numbers.{parse_uint, decimal}

-- `env` is the answer of os.LookupEnv for the key, which is also that of os.Getenv if there is one.
from_env : Option String → String
from_env none = ""
from_env (some v) = v

unfoldable pub get_string_value : Option String → String → String → String
unfolding from_env
get_string_value env flag_val default_val =
    let res = from_env env in
    let res' = if not (flag_val == "") && not (flag_val == default_val) then flag_val else res in
    if res' == "" then default_val else res'

env_bool : Option String → Bool
env_bool none = false
env_bool (some v) = if v == "" || v == "0" || v == "false" || v == "FALSE" then false else true

differs : Bool → Bool → Bool
differs true b = not b
differs false b = b

unfoldable pub get_bool_value : Option String → Bool → Bool
unfolding env_bool differs
get_bool_value env flag_val =
    let res = env_bool env in if differs res flag_val then flag_val else res

pub record PublishedPort : Type 0 where
  pub guest : ℕ
  pub host : ℕ
  pub protocol : String

protocol_of : List String → String
protocol_of (port ∷ name ∷ []) = trim_space (to_lower name)
protocol_of _ = "tcp"

first : List String → String
first [] = ""
first (s ∷ rest) = s

-- The tests after both ports are parsed.
check_ports : ℕ → ℕ → String → Result PublishedPort
check_ports host guest protocol =
    if ltb host 1 || ltb 65535 host
    then err ("Invalid hostPort: " <> decimal host)
    else if ltb guest 1 || ltb 65535 guest
    then err ("Invalid guestPort: " <> decimal guest)
    else ok (record { guest = guest % 2 ^ 16; host = host % 2 ^ 16; protocol = protocol })

guest_port : ℕ → String → Option ℕ → Result PublishedPort
guest_port host protocol none = err "The provided guestPort can't be converted to uint16"
guest_port host protocol (some guest) = check_ports host guest protocol

host_port : List String → Option ℕ → Result PublishedPort
host_port right none = err "The provided hostPort can't be converted to uint16"
host_port right (some host) =
    let protocol = protocol_of right in
    if not (protocol == "tcp") && not (protocol == "udp")
    then err "Provided protocol is not valid, valid options are: udp and tcp"
    else guest_port host protocol (parse_uint (65535) (first right))

parse_ports : List String → Result PublishedPort
parse_ports (host ∷ right ∷ rest) = host_port (split b'/' right) (parse_uint (65535) host)
parse_ports _ =
    err
      "Unable to parse the ports to be published, should be in format <host>:<guest> or <host>:<guest>/<tcp|udp>"

unfoldable pub new_published_port : String → Result PublishedPort
unfolding parse_ports host_port guest_port check_ports protocol_of first
new_published_port publish = parse_ports (split b':' publish)
