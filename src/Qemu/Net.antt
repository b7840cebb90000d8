-- ===== src/Qemu/Net.antt =====
-- pkg/qemu/qemu.go: the network device, its forwarded ports and its address.
pub mod Laws
use Prim.Native.Nat.{bit_and, bit_or}
use Prim.Native.String.{char_at}
use d2vm.Base.{
  ℕ, ◌/◌, ◌%◌, String, ◌<>◌, Bool, not, ◌||◌, ◌==◌, List, [], ◌∷◌, Result, ok, err, length, eqb,
  if◌then◌else◌,
}
use d2vm.Text.{split_in_two, join, single}
use d2vm.Text.Numbers.{decimal}
use d2vm.Host.{Exec, pure, raise, ◌>>=◌, read_random}
use d2vm.Qemu.Config.{PublishedPort}

abbrev pub networking_none : String
networking_none = "none"

abbrev pub networking_user : String
networking_user = "user"

abbrev pub networking_tap : String
networking_tap = "tap"

abbrev pub networking_bridge : String
networking_bridge = "bridge"

abbrev pub networking_default : String
networking_default = networking_user

no_ports : List PublishedPort → String → Result String
no_ports [] netdev = ok netdev
no_ports (p ∷ ports) netdev = err "Port publishing requires \"user\" networking mode"

-- The modes with a name behind a comma.
named_mode : String → List String → List PublishedPort → (String → String) → Result String
unfolding no_ports
named_mode mode (m ∷ name ∷ []) ports netdev = no_ports ports (netdev name)
named_mode mode _ ports netdev =
    err ("Not enough arguments for \"" <> (mode <> "\" networking mode"))

mode_of : List String → String
mode_of [] = ""
mode_of (m ∷ rest) = m

-- The switch on the networking mode: the value that netdevConfig gets.
switch_mode : List String → List PublishedPort → Result String
unfolding mode_of
switch_mode net_mode ports =
    let mode = mode_of net_mode in
    if mode == networking_user
    then ok "user,id=t0"
    else if mode == networking_tap
    then named_mode networking_tap net_mode ports
        (λ name. "tap,id=t0,ifname=" <> (name <> ",script=no,downscript=no"))
    else if mode == networking_bridge
    then named_mode networking_bridge net_mode ports (λ name. "bridge,id=t0,br=" <> name)
    else if mode == networking_none
    then no_ports ports ""
    else err ("Invalid networking mode: " <> mode)

unfoldable pub netdev_for : String → List PublishedPort → Result String
unfolding no_ports named_mode switch_mode
netdev_for networking ports =
    let chosen =
      if networking == "" || networking == "default" then networking_default else networking in
    switch_mode (split_in_two b',' chosen) ports

-- The loop of buildQemuForwardings; the early return for no ports gives the same.
unfoldable pub forward_from : String → List PublishedPort → String
forward_from forwardings [] = forwardings
forward_from forwardings (p ∷ ports) =
    forward_from
      (forwardings
        <> (",hostfwd=" <> (p.protocol <> ("::" <> (decimal p.host <> ("-:" <> decimal p.guest))))))
      ports

unfoldable pub build_qemu_forwardings : List PublishedPort → String
build_qemu_forwardings ports = forward_from "" ports

-- net.HardwareAddr's String
hex_digit : ℕ → String
hex_digit n = single (char_at "0123456789abcdef" n)

hex_bytes : List ℕ → List String
hex_bytes [] = []
hex_bytes (b ∷ bytes) = (hex_digit (b / 16) <> hex_digit (b % 16)) ∷ hex_bytes bytes

unfoldable pub mac_string : List ℕ → String
unfolding hex_digit hex_bytes
mac_string mac = join (hex_bytes mac) ":"

-- `mac[0] &^= 0x01` and `mac[0] |= 0x2`
unfoldable pub set_bits : List ℕ → List ℕ
set_bits [] = []
set_bits (b ∷ bytes) = bit_or (bit_and b 254) 2 ∷ bytes

-- A failure ends the process.
unfoldable pub generate_mac : {M : Type 0} → Exec M (List ℕ)
generate_mac = do
  mac ← read_random 6
  if not (eqb (length mac) 6)
      then raise ("generated " <> (decimal (length mac) <> " bytes for random mac address"))
      else pure (set_bits mac)
