-- ===== src/Qemu/Net/Laws.antt =====
-- The network that QEMU gets: its mode, the forwarded ports and the address.
use Prim.Native.Nat.{bit_and, bit_or}
use text.Mathlib.TextLemmas.{append_assoc, append-nil, nil-append}
use d2vm.Base.{
  holds_below, holds_below-at, ℕ, ◌/◌, ◌%◌, ◌<◌, String, ◌<>◌, ◌≡◌, refl, ◌⊎◌, Bool, true, ◌&&◌,
  ◌||◌, ◌==◌, List, [], ◌∷◌, ok, eqb, arith, if◌then◌else◌,
}
use d2vm.Text.{split_in_two}
use d2vm.Text.Numbers.{decimal}
use d2vm.Qemu.Config.{PublishedPort}
use d2vm.Qemu.Net.{
  netdev_for, no_ports, named_mode, switch_mode, networking_tap, networking_bridge,
  networking_default, build_qemu_forwardings, forward_from, set_bits,
}

named_mode-no_ports :
    (mode : String) (parts : List String) (ports : List PublishedPort) (netdev : String → String)
    (s : String)
    → named_mode mode parts ports netdev ≡ ok s
    → ports ≡ []
unfolding named_mode no_ports
named_mode-no_ports mode (m ∷ name ∷ []) [] netdev s e = refl
named_mode-no_ports mode (m ∷ name ∷ []) (p ∷ ports) netdev s e = absurd (cc)
named_mode-no_ports mode [] ports netdev s e = absurd (cc)
named_mode-no_ports mode (m ∷ []) ports netdev s e = absurd (cc)
named_mode-no_ports mode (m ∷ name ∷ more ∷ rest) ports netdev s e = absurd (cc)

no_ports-none :
    (ports : List PublishedPort) (netdev s : String) → no_ports ports netdev ≡ ok s → ports ≡ []
unfolding no_ports
no_ports-none [] netdev s e = refl
no_ports-none (p ∷ ports) netdev s e = absurd (cc)

switch_mode-user :
    (parts : List String) (ports : List PublishedPort) (s : String)
    → switch_mode parts ports ≡ ok s
    → (ports ≡ []) ⊎ (s ≡ "user,id=t0")
unfolding switch_mode
switch_mode-user parts ports s e = ground (
  arith,
  named_mode-no_ports networking_tap parts ports
      (λ name. "tap,id=t0,ifname=" <> (name <> ",script=no,downscript=no")) s,
  named_mode-no_ports networking_bridge parts ports (λ name. "bridge,id=t0,br=" <> name) s,
  no_ports-none ports "" s,
)

-- QEMU forwards ports only with its user network: if ports are published, an accepted mode is that
-- one.
pub netdev_for-user :
    (networking : String) (ports : List PublishedPort) (netdev : String)
    → netdev_for networking ports ≡ ok netdev
    → (ports ≡ []) ⊎ (netdev ≡ "user,id=t0")
unfolding netdev_for
netdev_for-user networking ports netdev e =
    switch_mode-user
      (split_in_two b','
        (if networking == "" || networking == "default" then networking_default else networking))
      ports netdev e

-- What QEMU's documentation asks for one port.
abbrev pub forwarding : PublishedPort → String
forwarding p =
    ",hostfwd=" <> (p.protocol <> ("::" <> (decimal p.host <> ("-:" <> decimal p.guest))))

abbrev pub forwardings : List PublishedPort → String
forwardings [] = ""
forwardings (p ∷ ports) = forwarding p <> forwardings ports

forward_from-forwardings :
    (s : String) (ports : List PublishedPort) → forward_from s ports ≡ s <> forwardings ports
unfolding forward_from
forward_from-forwardings s [] = rw append-nil
forward_from-forwardings s (p ∷ ports) =
    rw (forward_from-forwardings (s <> forwarding p) ports, append_assoc)

-- The loop over the published ports gives the option of each port, in order.
pub build_qemu_forwardings_lem :
    (ports : List PublishedPort) → build_qemu_forwardings ports ≡ forwardings ports
unfolding build_qemu_forwardings
build_qemu_forwardings_lem ports = rw (forward_from-forwardings "" ports, nil-append)

abbrev is_local : ℕ → Bool
is_local b = eqb (bit_or (bit_and b 254) 2 % 4) 2 && eqb (bit_or (bit_and b 254) 2 / 4) (b / 4)

bits_table : holds_below is_local 256 ≡ true
bits_table = refl

-- The two lowest bits of the address's first byte say that it is no multicast address and is
-- locally administered; its other bits and the other bytes are the random ones.
pub set_bits_lem :
    (b : ℕ) (bytes : List ℕ)
    → b < 256
    → (c : ℕ) × (set_bits (b ∷ bytes) ≡ c ∷ bytes) × (c % 4 ≡ 2) × (c / 4 ≡ b / 4)
unfolding set_bits
set_bits_lem b bytes lt =
    let e = holds_below-at is_local 256 b bits_table lt in
    (bit_or (bit_and b 254) 2, refl, ground arith, ground arith)
