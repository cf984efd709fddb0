-- ===== src/Site/Placement.antt =====
-- What a plan that validate of scripts/portable_plan.py returns promises of its machines, and the
-- promise of validate.
use resilient_datacenter.Shared.{
  ℕ, true, false, Option, none, some, List, [], ◌∷◌, contains, ◌≡◌, ◌≢◌, Bool-cases, refl, sym,
  subst, arith, inl, inr, ◌≤◌, eq_iff,
}
use resilient_datacenter.Shared.Hoare.{some-eq}
use resilient_datacenter.Shared.Apart.{
  Among, All, Apart, All-map, All-Among, any-Among, Among-map, Apart-Among,
}
use resilient_datacenter.Site.Addresses.{Literal, Cidr, usable_in}
use resilient_datacenter.Site.Plan.{
  Zone, Role, zones, modules, zone_of, minimum_memory, Network, Machine, Plan, vms_ok, in_zone,
  has_number, same_literal, has_literal, gateways, valid, validate,
}
use resilient_datacenter.Site.Separation.{
  Separate, Separate-sym, Usable, Fresh, usable_literal-some, networks_ok-Separate,
}

-- The machine's address is a usable one of the zone's subnet.
abbrev pub Placed : Machine → Network → Type 0
Placed m n =
    (c : Cidr) × (a : ℕ) × (n.cidr ≡ some c) × (m.address ≡ some a) × (usable_in a c ≡ true)

abbrev pub Distinct : Machine → Machine → Type 0
Distinct m n = (m.id ≢ n.id) × (m.address ≢ n.address)

abbrev pub Sized : Role → Machine → Type 0
Sized r m =
    (100 ≤ m.id)
    × (m.id ≤ 999999999)
    × (1 ≤ m.cpu)
    × (m.cpu ≤ 256)
    × (minimum_memory r ≤ m.memory_mib)
    × (m.memory_mib ≤ 1048576)
    × (20 ≤ m.disk_gib)
    × (m.disk_gib ≤ 1048576)

pub record Sound (p : Plan) : Type 0 where
  pub usable : (z : Zone) → Usable (p.networks z)
  pub separate : (y z : Zone) → y ≢ z → Separate (p.networks y) (p.networks z)
  pub off_wan : (z : Zone) → (p.networks z).bridge ≢ p.proxmox.wan_bridge
  pub placed : (r : Role) → Placed (p.vms r) (p.networks (zone_of r))
  pub sized : (r : Role) → Sized r (p.vms r)
  pub distinct : (q r : Role) → q ≢ r → Distinct (p.vms q) (p.vms r)
  pub off_gateways : (r : Role) (z : Zone) → (p.vms r).address ≢ (p.networks z).gateway
  pub recoverable : p.site ≢ p.recovery_site

pub zone_known : (z : Zone) → Among z zones
zone_known Zone.management = inl refl
zone_known Zone.staff = inr (inl refl)
zone_known Zone.frontend = inr (inr (inl refl))
zone_known Zone.applications = inr (inr (inr (inl refl)))
zone_known Zone.partner = inr (inr (inr (inr (inl refl))))

pub role_known : (r : Role) → Among r modules
role_known Role.edge = inl refl
role_known Role.dns = inr (inl refl)
role_known Role.nginx = inr (inr (inl refl))
role_known Role.chat = inr (inr (inr (inl refl)))
role_known Role.files = inr (inr (inr (inr (inl refl))))
role_known Role.partner = inr (inr (inr (inr (inr (inl refl)))))

in_zone-Placed :
    (m : Machine) (n : Network) (o : Option Cidr)
    → n.cidr ≡ o
    → in_zone m.address o ≡ true
    → Placed m n
in_zone-Placed m n none e h = cc
in_zone-Placed m n (some c) e h =
    let (a, g, u) = usable_literal-some m.address c h in (c, a, e, g, u)

-- Literals of which one is an address are compared by their addresses.
pub same_literal-ne : (l m : Literal) (a : ℕ) → l ≡ some a → same_literal l m ≡ false → l ≢ m
same_literal-ne none m a e h q = cc
same_literal-ne (some b) none a e h q = cc
same_literal-ne (some b) (some c) a e h q = let same : b ≡ c = some-eq b c q in ground arith

-- A machine of the loop is apart from what was seen before it.
abbrev New : Plan → List ℕ → List Literal → Role → Type 0
New p ids addresses r =
    Placed (p.vms r) (p.networks (zone_of r))
    × Sized r (p.vms r)
    × (has_number (p.vms r).id ids ≡ false)
    × (has_literal (p.vms r).address addresses ≡ false)

New-less :
    (p : Plan) (i : ℕ) (a : Literal) (ids : List ℕ) (addresses : List Literal) (r : Role)
    → New p (i ∷ ids) (a ∷ addresses) r
    → New p ids addresses r
New-less p i a ids addresses r (x, s, n, l) = (x, s, ground arith, ground arith)

New-Distinct :
    (p : Plan) (q r : Role) (ids : List ℕ) (addresses : List Literal)
    → New p ((p.vms q).id ∷ ids) ((p.vms q).address ∷ addresses) r
    → Distinct (p.vms q) (p.vms r)
New-Distinct p q r ids addresses ((c, a, e, g, u), s, n, l) = (
  λ t. ground arith,
  λ t. same_literal-ne (p.vms r).address (p.vms q).address a g (ground arith) (sym t),
)

vms_ok-New :
    (p : Plan) (rs : List Role) (ids : List ℕ) (addresses : List Literal)
    → vms_ok p rs ids addresses ≡ true
    → All (New p ids addresses) rs × Apart (λ q r. Distinct (p.vms q) (p.vms r)) rs
unfolding vms_ok
vms_ok-New p [] ids addresses h = (tt, tt)
vms_ok-New p (r ∷ rs) ids addresses h =
    let m = p.vms r in
    let n = p.networks (zone_of r) in
    let placed : Placed m n = in_zone-Placed m n n.cidr refl (ground arith) in
    let (new, apart) = vms_ok-New p rs (m.id ∷ ids) (m.address ∷ addresses) (ground arith) in
    (
      (
        (placed, ground arith, ground arith, ground arith),
        All-map _ _ rs (λ q f. New-less p m.id m.address ids addresses q f) new,
      ),
      (All-map _ _ rs (λ q f. New-Distinct p r q ids addresses f) new, apart),
    )

Distinct-sym : (m n : Machine) → Distinct m n → Distinct n m
Distinct-sym m n h = (λ e. h.0 (sym e), λ e. h.1 (sym e))

gateway_known : (p : Plan) (z : Zone) → Among (p.networks z).gateway (gateways p)
gateway_known p z = Among-map (λ y. (p.networks y).gateway) zones z (zone_known z)

pub valid-Sound : (p : Plan) → valid p ≡ true → Sound p
unfolding valid
valid-Sound p h =
    let (fresh, apart) =
      networks_ok-Separate p.networks zones [] (p.proxmox.wan_bridge ∷ []) (ground arith) in
    let (new, distinct) = vms_ok-New p modules [] (gateways p) (ground arith) in
    let zone_fresh : (z : Zone) → Fresh [] (p.proxmox.wan_bridge ∷ []) (p.networks z) = λ z.
      All-Among (λ x. Fresh [] (p.proxmox.wan_bridge ∷ []) (p.networks x)) zones fresh
        (zone_known z) in
    let role_new : (r : Role) → New p [] (gateways p) r =
      λ r. All-Among (New p [] (gateways p)) modules new (role_known r) in
    record {
      usable = λ z. (zone_fresh z).0;
      separate = λ y z ne.
          Apart-Among _ (λ a b r. Separate-sym (p.networks a) (p.networks b) r) zones apart
            (zone_known y) (zone_known z) ne;
      off_wan = λ z e. bridge_apart z (zone_fresh z).2 e;
      placed = λ r. (role_new r).0;
      sized = λ r. (role_new r).1;
      distinct = λ q r ne.
          Apart-Among _ (λ a b k. Distinct-sym (p.vms a) (p.vms b) k) modules distinct
            (role_known q) (role_known r) ne;
      off_gateways = λ r z e.
          same_literal-ne (p.vms r).address (p.networks z).gateway (role_new r).0.1 (role_new r).0.3
            (any-Among (same_literal (p.vms r).address) (gateways p) (role_new r).3
              (gateway_known p z))
            e;
      recoverable = λ e. ground (arith, eq_iff p.site p.recovery_site);
    }
  where
    bridge_apart :
        (z : Zone)
        → contains (p.networks z).bridge (p.proxmox.wan_bridge ∷ []) ≡ false
        → (p.networks z).bridge ≡ p.proxmox.wan_bridge
        → ⊥
    bridge_apart z k e = ground (arith, eq_iff p.proxmox.wan_bridge (p.networks z).bridge)

-- A plan that validate returns is the one it was given, and: every zone has a private subnet of a
-- size from /28 to /16 with a usable gateway; no address lies in the subnets of two zones, and no two
-- zones, nor a zone and the WAN, share a bridge; every machine has a usable address of its role's
-- zone, which no gateway and no other machine has, an identifier of its own, and resources within the
-- bounds of its role; and the recovery site is another one.
pub validate-Sound : (p q : Plan) → validate p ≡ some q → (q ≡ p) × Sound q
unfolding validate
validate-Sound p q h = elim (Bool-cases (valid p)) [
  | inl ok ↦ (ground arith, subst Sound (ground arith) (valid-Sound p ok))
  | inr bad ↦ absurd (ground arith)
]
