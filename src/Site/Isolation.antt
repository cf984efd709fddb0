-- ===== src/Site/Isolation.antt =====
-- Where the rules of scripts/portable_network.py let traffic go.
use resilient_datacenter.Shared.{
  ℕ, String, true, some, List, [], ◌∷◌, map, ◌≡◌, ◌≢◌, refl, subst, ◌∙◌, arith, ◌⊎◌, inl, inr,
  Bool-cases, ◌&&◌,
}
use resilient_datacenter.Shared.Hoare.{some-eq}
use resilient_datacenter.Shared.Apart.{All, All-append}
use resilient_datacenter.Site.Addresses.{within, usable_in}
use resilient_datacenter.Site.Plan.{Zone, Role, zones, zone_of, Network, Machine, Plan, valid}
use resilient_datacenter.Site.Network.{
  Settings, Clock, Mode, host_rtc, local_source, unknown_mode, host, independent_clock, Rule,
  NetworkPolicy, linux_roles, zone_rules, zones_rules, ssh_rule, clock_rules, single_rules,
  rules_of, policy_of, settings_ok, derive,
}
use resilient_datacenter.Site.Separation.{Inside}
use resilient_datacenter.Site.Placement.{Placed, Sound, valid-Sound}

-- An administrator's rule; the clock's rule; or one whose destination lies in no zone but the
-- frontend.
abbrev pub Contained : Plan → Settings → Rule → Type 0
Contained p s rule =
    ((rule.interface ≡ Zone.management) × (rule.source ≡ host s.administrator_address))
    ⊎ (((rule.interface ≡ Zone.frontend)
          × (rule.source ≡ host (p.vms Role.dns).address)
          × (rule.purpose ≡ independent_clock))
        ⊎ ((z : Zone) (a : ℕ)
            → z ≢ Zone.frontend
            → rule.destination ≡ some a
            → Inside a (p.networks z)
            → ⊥))

pub Placed-Inside :
    (m : Machine) (n : Network) (a : ℕ) → Placed m n → m.address ≡ some a → Inside a n
unfolding usable_in
Placed-Inside m n a (c, b, e, g, u) h =
    let same : b ≡ a = some-eq b a (cc) in
    (c, e, subst (λ t. within t c ≡ true) same (ground arith))

module _ (p : Plan) (s : Settings) (sound : Sound p) where
  -- A machine of the frontend is in no other zone.
  frontend_only :
      (r : Role)
      → zone_of r ≡ Zone.frontend
      → (z : Zone) (a : ℕ) → z ≢ Zone.frontend
      → (p.vms r).address ≡ some a
      → Inside a (p.networks z)
      → ⊥
  frontend_only r e z a ne h i =
      (sound.separate z (zone_of r) (λ q. ne (q ∙ e))).0 a i
        (Placed-Inside (p.vms r) (p.networks (zone_of r)) a (sound.placed r) h)

  zones_rules-Contained : (zs : List Zone) → All (Contained p s) (zones_rules p zs)
  unfolding zone_rules
  zones_rules-Contained [] = tt
  zones_rules-Contained (z ∷ zs) = (
    inr (inr (frontend_only Role.dns refl)),
    (inr (inr (frontend_only Role.dns refl)), zones_rules-Contained zs),
  )

  ssh_rules-Contained : (rs : List Role) → All (Contained p s) (map (ssh_rule p s) rs)
  ssh_rules-Contained [] = tt
  ssh_rules-Contained (r ∷ rs) = (inl (refl, refl), ssh_rules-Contained rs)

  clock_rules-Contained :
      (c : Clock) (m : Mode) → c.mode ≡ m → All (Contained p s) (clock_rules p c)
  unfolding clock_rules
  clock_rules-Contained c host_rtc e = rw e tt
  clock_rules-Contained c local_source e = rw e (inr (inl (refl, refl, refl)), tt)
  clock_rules-Contained c unknown_mode e = rw e tt

  rules_of-Contained : All (Contained p s) (rules_of p s)
  unfolding rules_of
  rules_of-Contained =
      All-append (Contained p s) (zones_rules p zones) (single_rules p s)
        (zones_rules-Contained zones)
        (
          inr (inr (frontend_only Role.nginx refl)),
          (
            inl (refl, refl),
            All-append (Contained p s) (map (ssh_rule p s) linux_roles) (clock_rules p s.clock)
                (ssh_rules-Contained linux_roles) (clock_rules-Contained s.clock s.clock.mode refl),
          ),
        )

module _ (site_sha256 : Plan → String) (settings_sha256 : Settings → String) where
  pub derive-valid :
      (p : Plan) (s : Settings) (n : NetworkPolicy)
      → derive site_sha256 settings_sha256 p s ≡ some n
      → (valid p ≡ true)
        × (settings_ok p s ≡ true)
        × (policy_of site_sha256 settings_sha256 p s ≡ n)
  unfolding derive
  derive-valid p s n h = elim (Bool-cases (valid p && settings_ok p s)) [
    | inl ok ↦ (ground arith, ground arith, some-eq _ _ (ground arith))
    | inr bad ↦ absurd (ground arith)
  ]

  -- Each rule of a policy that derive returns is one of the administrator's address on the management
  -- interface; or the time rule from the DNS machine to an independent clock; or its destination lies
  -- in the subnet of no zone but the frontend: staff, partners and applications are let into no other.
  pub derive-Contained :
      (p : Plan) (s : Settings) (n : NetworkPolicy)
      → derive site_sha256 settings_sha256 p s ≡ some n
      → All (Contained p s) n.rules
  unfolding policy_of
  derive-Contained p s n h =
      let (v, k, e) = derive-valid p s n h in
      subst (λ t. All (Contained p s) t.rules) e (rules_of-Contained p s (valid-Sound p v))
