-- ===== src/RunUtil/RoundTrip.antt =====
-- NewPublishedPort reads a port the way that it is written.
use Prim.Native.String.{char_at}
use d2vm.Base.{
  ℕ, ◌≤◌, String, ◌<>◌, ◌≡◌, refl, ◌⊎◌, inl, inr, true, false, not, ◌&&◌, ◌==◌, [], ◌∷◌, ok, some,
  arith,
}
use d2vm.Text.{to_lower, trim_space}
use d2vm.Text.Numbers.{decimal}
use d2vm.Text.Numbers.RoundTrip.{parse_uint-decimal, decimal-free}
use d2vm.Text.Splits.{is_free, is_free-append, split-free, split-append}
use d2vm.RunUtil.{
  new_published_port, parse_ports, host_port, guest_port, check_ports, protocol_of, first,
}

-- What the two protocols have in common.
record IsProtocol (p : String) : Type 0 where
  no_colon : is_free b':' p ≡ true
  no_slash : is_free b'/' p ≡ true
  lower : trim_space (to_lower p) ≡ p
  known : (not (p == "tcp") && not (p == "udp")) ≡ false

IsProtocol-of_name : (p : String) → (p ≡ "tcp") ⊎ (p ≡ "udp") → IsProtocol p
unfolding trim_space to_lower
IsProtocol-of_name p (inl e) =
    rw e record { no_colon = refl; no_slash = refl; lower = refl; known = refl }
IsProtocol-of_name p (inr e) =
    rw e record { no_colon = refl; no_slash = refl; lower = refl; known = refl }

check_ports-ok :
    (host guest : ℕ) (protocol : String)
    → (1 ≤ host) × (host ≤ 65535)
    → (1 ≤ guest) × (guest ≤ 65535)
    → check_ports host guest protocol
      ≡ ok (record { guest = guest; host = host; protocol = protocol })
unfolding check_ports
check_ports-ok host guest protocol (h, h') (g, g') = ground arith

host_port-ok :
    (host guest : ℕ) (protocol : String)
    → IsProtocol protocol
    → (1 ≤ host) × (host ≤ 65535)
    → (1 ≤ guest) × (guest ≤ 65535)
    → host_port (decimal guest ∷ protocol ∷ []) (some host)
      ≡ ok (record { guest = guest; host = host; protocol = protocol })
unfolding host_port guest_port protocol_of first
host_port-ok host guest protocol k h g =
    rw k.lower (
      rw k.known (rw (parse_uint-decimal 65535 guest g.1) (check_ports-ok host guest protocol h g)))

-- A port that is written as host:guest/protocol, with both ports between 1 and 65535 and the
-- protocol tcp or udp, is read as itself.
pub new_published_port-written :
    (host guest : ℕ) (protocol : String)
    → (1 ≤ host) × (host ≤ 65535)
    → (1 ≤ guest) × (guest ≤ 65535)
    → (protocol ≡ "tcp") ⊎ (protocol ≡ "udp")
    → new_published_port (decimal host <> (":" <> (decimal guest <> ("/" <> protocol))))
      ≡ ok (record { guest = guest; host = host; protocol = protocol })
unfolding new_published_port parse_ports
new_published_port-written host guest protocol h g k =
    let p = IsProtocol-of_name protocol k in
    rw
      (split-append (char_at ":" 0) (decimal host) (decimal guest <> ("/" <> protocol))
        (decimal-free b':' host (inr (omega arith))))
      (rw
        (split-free b':' (decimal guest <> ("/" <> protocol)) (
          is_free-append b':' (decimal guest) ("/" <> protocol)
            (decimal-free b':' guest (inr (omega arith)))
            (is_free-append b':' "/" protocol refl p.no_colon)))
        (rw
          (split-append (char_at "/" 0) (decimal guest) protocol
            (decimal-free b'/' guest (inl (omega arith))))
          (rw (split-free b'/' protocol p.no_slash)
            (rw (parse_uint-decimal 65535 host h.1) (host_port-ok host guest protocol p h g)))))
