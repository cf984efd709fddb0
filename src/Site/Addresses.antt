-- ===== src/Site/Addresses.antt =====
-- IPv4 addresses and subnets as scripts/portable_plan.py and scripts/portable_network.py use them
-- through the module ipaddress. An address is its number.
use resilient_datacenter.Shared.{
  ℕ, ◌+◌, ◌-◌, ◌%◌, ◌^◌, String, Bool, false, not, ◌&&◌, ◌||◌, leb, ◌==◌, Option, ◌≡◌, true, arith,
}

-- A text of the plan that ipaddress.ip_address refuses, or reads as IPv6, is `none`. Any other is the
-- one text of its number, since octets with leading zeros are refused.
abbrev pub Literal : Type 0
Literal = Option ℕ

-- `suffix` is what the text has after the slash.
pub record Cidr : Type 0 where
  pub base : ℕ
  pub prefixlen : ℕ
  pub suffix : String

-- subnet.num_addresses
unfoldable pub size : Cidr → ℕ
size c = 2 ^ (32 - c.prefixlen)

unfoldable pub broadcast : Cidr → ℕ
broadcast c = c.base + size c - 1

-- address in subnet
unfoldable pub within : ℕ → Cidr → Bool
within a c = leb c.base a && leb a (broadcast c)

-- address in subnet and address not in (subnet.network_address, subnet.broadcast_address)
unfoldable pub usable_in : ℕ → Cidr → Bool
usable_in a c = within a c && not (a == c.base) && not (a == broadcast c)

-- a.overlaps(b)
unfoldable pub overlaps : Cidr → Cidr → Bool
overlaps a b =
    within b.base a || within (broadcast b) a || within a.base b || within (broadcast a) b

-- a.subnet_of(b)
unfoldable pub subnet_of : Cidr → Cidr → Bool
subnet_of a b = leb b.base a.base && leb (broadcast a) (broadcast b)

-- what ip_network(strict=True) asks of the host bits
unfoldable pub strict : Cidr → Bool
strict c = c.base % size c == 0

-- Two subnets that do not overlap have no address in common.
pub overlaps-within :
    (a b : Cidr) (x : ℕ) → overlaps a b ≡ false → within x a ≡ true → within x b ≡ false
unfolding overlaps within
overlaps-within a b x h k = ground arith
