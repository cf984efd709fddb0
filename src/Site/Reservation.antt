-- ===== src/Site/Reservation.antt =====
-- The addresses that scripts/portable_network.py hands out: the DHCP range and the edge's interfaces.
use resilient_datacenter.Shared.{
  ℕ, String, true, false, Option, none, some, List, ◌∷◌, ◌≡◌, ◌≢◌, refl, sym, subst, arith, inl,
  inr, ◌≤◌, ◌<◌, ◌⊎◌, leb, any, ap, Bool-cases, and-true, not-true,
}
use resilient_datacenter.Shared.Apart.{All, Among, any-Among}
use resilient_datacenter.Site.Addresses.{Literal, Cidr, usable_in}
use resilient_datacenter.Site.Plan.{Zone, Role, Network, Plan, in_zone, same_literal, has_literal}
use resilient_datacenter.Site.Network.{
  Settings, Interface, NetworkPolicy, planned_addresses, static_addresses, between, management_ok,
  dhcp_ok, range_ok, settings_ok, suffix_of, edge_interface, policy_of, derive,
}
use resilient_datacenter.Site.Separation.{Usable, usable_literal-some}
use resilient_datacenter.Site.Placement.{Placed, valid-Sound, same_literal-ne}
use resilient_datacenter.Site.Isolation.{derive-valid}

abbrev pub Served : Literal → Network → Type 0
Served l n = (c : Cidr) × (a : ℕ) × (n.cidr ≡ some c) × (l ≡ some a) × (usable_in a c ≡ true)

-- From `start` to `end` no address is taken, and both are usable ones of the staff's subnet.
abbrev pub Reserved : Plan → Settings → Literal → Literal → Type 0
Reserved p s start end =
    (a : ℕ) × (b : ℕ) × (start ≡ some a)
    × (end ≡ some b)
    × (a ≤ b)
    × Served start (p.networks Zone.staff)
    × Served end (p.networks Zone.staff)
    × ((x : ℕ) → Among (some x) (static_addresses p s) → (x < a) ⊎ (b < x))

abbrev pub Managed : Plan → Settings → Type 0
Managed p s =
    Served s.administrator_address (p.networks Zone.management)
    × Served s.proxmox_address (p.networks Zone.management)
    × (s.administrator_address ≢ s.proxmox_address)
    × ((x : ℕ)
        → Among (some x) (planned_addresses p)
        → (s.administrator_address ≢ some x) × (s.proxmox_address ≢ some x))

in_zone-Served :
    (l : Literal) (n : Network) (o : Option Cidr) → n.cidr ≡ o → in_zone l o ≡ true → Served l n
in_zone-Served l n none e h = cc
in_zone-Served l n (some c) e h = let (a, g, u) = usable_literal-some l c h in (c, a, e, g, u)

outside : (a b x : ℕ) → between a b (some x) ≡ false → (x < a) ⊎ (b < x)
outside a b x h = elim (Bool-cases (leb a x)) [
  | inl low ↦ inr (ground arith)
  | inr above ↦ inl (ground arith)
]

range_ok-Reserved :
    (start end : Literal) (occupied : List Literal)
    → range_ok start end occupied ≡ true
    → (a : ℕ) × (b : ℕ) × (start ≡ some a)
      × (end ≡ some b)
      × (a ≤ b)
      × ((x : ℕ) → Among (some x) occupied → (x < a) ⊎ (b < x))
unfolding range_ok
range_ok-Reserved none end occupied h = cc
range_ok-Reserved (some a) none occupied h = cc
range_ok-Reserved (some a) (some b) occupied h =
    let free : any (between a b) occupied ≡ false = ground arith in
    (a, b, refl, refl, ground arith, λ x m. outside a b x (any-Among (between a b) occupied free m))

literal-apart :
    (l : Literal) (xs : List Literal) (x : ℕ)
    → has_literal l xs ≡ false
    → Among (some x) xs
    → l ≢ some x
literal-apart none xs x h m e = cc
literal-apart (some a) xs x h m e =
    same_literal-ne (some a) (some x) a refl (any-Among (same_literal (some a)) xs h m) e

dhcp_ok-Reserved :
    (p : Plan) (s : Settings) → dhcp_ok p s ≡ true → Reserved p s s.dhcp_start s.dhcp_end
unfolding dhcp_ok
dhcp_ok-Reserved p s k =
    let n = p.networks Zone.staff in
    let (low_high, range) = and-true _ _ k in
    let (low, high) = and-true _ _ low_high in
    let (a, b, e, e', le, out) =
      range_ok-Reserved s.dhcp_start s.dhcp_end (static_addresses p s) range in
    (
      a,
      b,
      e,
      e',
      le,
      in_zone-Served s.dhcp_start n n.cidr refl low,
      in_zone-Served s.dhcp_end n n.cidr refl high,
      out,
    )

management_ok-Managed : (p : Plan) (s : Settings) → management_ok p s ≡ true → Managed p s
unfolding management_ok
management_ok-Managed p s k =
    let m = p.networks Zone.management in
    let taken = planned_addresses p in
    let (k', fourth) = and-true _ _ k in
    let (k'', third) = and-true _ _ k' in
    let (first, second) = and-true _ _ k'' in
    let free : has_literal s.administrator_address taken ≡ false = not-true _ second in
    let clear : has_literal s.proxmox_address (s.administrator_address ∷ taken) ≡ false =
      not-true _ fourth in
    let served : Served s.proxmox_address m =
      in_zone-Served s.proxmox_address m m.cidr refl third in
    (
      in_zone-Served s.administrator_address m m.cidr refl first,
      served,
      λ e.
          same_literal-ne s.proxmox_address s.administrator_address served.1 served.3
            (any-Among (same_literal s.proxmox_address) (s.administrator_address ∷ taken) clear
              (inl refl))
            (sym e),
      λ x a. (
        literal-apart s.administrator_address taken x free a,
        literal-apart s.proxmox_address (s.administrator_address ∷ taken) x clear (inr a),
      ),
    )

-- An interface of the edge has a usable address of its zone, spelled with the subnet's suffix, and
-- the zone's bridge.
abbrev pub Attached : Plan → Interface → Type 0
Attached p i =
    (c : Cidr) × (a : ℕ) × ((p.networks i.zone).cidr ≡ some c)
    × (i.address ≡ some a)
    × (usable_in a c ≡ true)
    × (i.suffix ≡ some c.suffix)
    × (i.bridge ≡ (p.networks i.zone).bridge)

Usable-Attached :
    (p : Plan) (device : ℕ) (z : Zone)
    → z ≢ Zone.management
    → Usable (p.networks z)
    → Attached p (edge_interface p device z)
unfolding edge_interface
Usable-Attached p device Zone.management ne u = absurd (ne refl)
Usable-Attached p device Zone.staff ne u = (u.0, u.1, u.2, u.3, u.4, ap suffix_of u.2, refl)
Usable-Attached p device Zone.frontend ne u = (u.0, u.1, u.2, u.3, u.4, ap suffix_of u.2, refl)
Usable-Attached p device Zone.applications ne u = (u.0, u.1, u.2, u.3, u.4, ap suffix_of u.2, refl)
Usable-Attached p device Zone.partner ne u = (u.0, u.1, u.2, u.3, u.4, ap suffix_of u.2, refl)

Placed-Attached :
    (p : Plan) (device : ℕ)
    → Placed (p.vms Role.edge) (p.networks Zone.management)
    → Attached p (edge_interface p device Zone.management)
unfolding edge_interface
Placed-Attached p device (c, a, e, g, u) = (c, a, e, g, u, ap suffix_of e, refl)

module _ (site_sha256 : Plan → String) (settings_sha256 : Settings → String) where
  -- A policy that derive returns hands out the DHCP range of the settings: it is ordered, lies in the
  -- subnet of the staff, and has no address of a machine, a gateway, the administrator or Proxmox;
  -- these last two are different usable addresses of the management subnet that no machine and no
  -- gateway has; and the router that it names is the staff's gateway, the name server the DNS machine.
  pub derive-Reserved :
      (p : Plan) (s : Settings) (n : NetworkPolicy)
      → derive site_sha256 settings_sha256 p s ≡ some n
      → Reserved p s n.dhcp.start n.dhcp.end
        × Managed p s
        × (n.dhcp.router ≡ (p.networks Zone.staff).gateway)
        × (n.dhcp.dns ≡ (p.vms Role.dns).address)
  unfolding policy_of settings_ok
  derive-Reserved p s n h =
      let (v, k, e) = derive-valid site_sha256 settings_sha256 p s n h in
      (
        subst (λ t. Reserved p s t.dhcp.start t.dhcp.end) e (dhcp_ok-Reserved p s (ground arith)),
        management_ok-Managed p s (ground arith),
        subst (λ t. t.dhcp.router ≡ (p.networks Zone.staff).gateway) e refl,
        subst (λ t. t.dhcp.dns ≡ (p.vms Role.dns).address) e refl,
      )

  -- Each interface of the edge in a policy that derive returns has a usable address of its zone's
  -- subnet, with the suffix of that subnet, on the bridge of the zone.
  derive-Attached :
      (p : Plan) (s : Settings) (n : NetworkPolicy)
      → derive site_sha256 settings_sha256 p s ≡ some n
      → All (Attached p) n.edge_interfaces
  unfolding policy_of
  derive-Attached p s n h =
      let (v, k, e) = derive-valid site_sha256 settings_sha256 p s n h in
      let sound = valid-Sound p v in
      subst (λ t. All (Attached p) t.edge_interfaces) e
        (
          Placed-Attached p 1 (sound.placed Role.edge),
          (
            Usable-Attached p 2 Zone.staff (λ q. cc) (sound.usable Zone.staff),
            (
              Usable-Attached p 3 Zone.frontend (λ q. cc) (sound.usable Zone.frontend),
              (
                Usable-Attached p 4 Zone.applications (λ q. cc) (sound.usable Zone.applications),
                (Usable-Attached p 5 Zone.partner (λ q. cc) (sound.usable Zone.partner), tt),
              ),
            ),
          ),
        )
