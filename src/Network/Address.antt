-- ===== src/Network/Address.antt =====
-- internal/network/interfaces.go: whether an address is one of the host, or in one of its networks.
use Prim.Native.Nat.{bit_and}
use server_metrics.Base.{
  ℕ, ◌/◌, Bool, true, false, ◌&&◌, ◌||◌, List, [], ◌∷◌, Bytes, ◌==◌, same, if◌then◌else◌, length,
  take, drop,
}

-- An address in the form that `IP.String` and `IP.Equal` go by: the four bytes of an IPv4 address,
-- also where it came as an IPv6 address that is mapped to it, and else sixteen bytes. The texts that
-- the program uses as keys stand for it, and `net.ParseIP` gives it back.
abbrev pub Address : Type 0
Address = Bytes

abbrev pub mapped_prefix : Bytes
mapped_prefix = 0 ∷ 0 ∷ 0 ∷ 0 ∷ 0 ∷ 0 ∷ 0 ∷ 0 ∷ 0 ∷ 0 ∷ 255 ∷ 255 ∷ []

unfoldable pub canonical : Bytes → Address
canonical ip = if length ip == 16 && same (take 12 ip) mapped_prefix then drop 12 ip else ip

abbrev pub zeros_and : ℕ → Bytes
zeros_and b = 0 ∷ 0 ∷ 0 ∷ 0 ∷ 0 ∷ 0 ∷ 0 ∷ 0 ∷ 0 ∷ 0 ∷ 0 ∷ 0 ∷ 0 ∷ 0 ∷ 0 ∷ b ∷ []

-- `IP.IsLoopback`: 127.0.0.0/8, or ::1.
unfoldable pub is_loopback : Address → Bool
is_loopback (a ∷ b ∷ c ∷ d ∷ []) = a == 127
is_loopback ip = same ip (zeros_and 1)

-- `IP.IsLinkLocalUnicast`: 169.254.0.0/16, or fe80::/10.
unfoldable pub is_link_local_unicast : Address → Bool
is_link_local_unicast (a ∷ b ∷ c ∷ d ∷ []) = a == 169 && b == 254
is_link_local_unicast (a ∷ b ∷ rest) = a == 254 && b / 64 == 2
is_link_local_unicast ip = false

-- `IP.IsUnspecified`: 0.0.0.0, or ::.
unfoldable pub is_unspecified : Address → Bool
is_unspecified ip = same ip (0 ∷ 0 ∷ 0 ∷ 0 ∷ []) || same ip (zeros_and 0)

-- `net.IPNet`, the mask as long as the address.
pub record Network : Type 0 where
  pub ip : Address
  pub mask : Bytes

-- `IPNet.Contains`, byte by byte.
unfoldable pub masked_same : Bytes → Bytes → Bytes → Bool
masked_same (n ∷ ns) (m ∷ ms) (b ∷ bs) = bit_and n m == bit_and b m && masked_same ns ms bs
masked_same [] ms [] = true
masked_same _ _ _ = false

-- The loop over the networks, with `isLocalNetwork` so far; the result is `isLocalAddress`,
-- `isLocalNetwork`, where no network has the address itself the former is as given.
unfoldable pub classify_networks : List Network → Address → Bool → Bool → Bool × Bool
unfolding masked_same
classify_networks [] ip local_address local_network = (local_address, local_network)
classify_networks (n ∷ ns) ip local_address local_network =
    let rest =
      classify_networks ns ip local_address (local_network || masked_same n.ip n.mask ip) in
    if same n.ip ip then (true, true) else rest

-- `classifyAddress`
unfoldable pub classify_address : List Network → Address → Bool × Bool
unfolding classify_networks
classify_address networks ip =
    classify_networks networks ip (is_loopback ip)
      (is_loopback ip || is_link_local_unicast ip || is_unspecified ip)
