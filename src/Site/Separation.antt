-- ===== src/Site/Separation.antt =====
-- What a plan that validate of scripts/portable_plan.py returns promises of its networks.
use resilient_datacenter.Shared.{
  ℕ, String, true, false, Option, none, some, List, [], ◌∷◌, contains, any, ◌≡◌, ◌≢◌, refl, sym, ap,
  subst, ◌∙◌, arith, eq_iff, ◌≤◌,
}
use resilient_datacenter.Shared.Apart.{All, Apart, All-map}
use resilient_datacenter.Shared.Hoare.{some-eq}
use resilient_datacenter.Site.Addresses.{
  Literal, Cidr, within, usable_in, overlaps, strict, subnet_of, overlaps-within,
}
use resilient_datacenter.Site.Plan.{
  Zone, Network, planned, networks_ok, usable_literal, private_blocks, overlaps_any, with_subnet,
}

-- The address `x` lies in the subnet of the network.
abbrev pub Inside : ℕ → Network → Type 0
Inside x n = (c : Cidr) × (n.cidr ≡ some c) × (within x c ≡ true)

abbrev pub Separate : Network → Network → Type 0
Separate m n = ((x : ℕ) → Inside x m → Inside x n → ⊥) × (m.bridge ≢ n.bridge)

-- The gateway is a usable address of the network's subnet, which is private and of a size from /28
-- to /16.
abbrev pub Usable : Network → Type 0
Usable n =
    (c : Cidr) × (a : ℕ) × (n.cidr ≡ some c)
    × (n.gateway ≡ some a)
    × (usable_in a c ≡ true)
    × (16 ≤ c.prefixlen)
    × (c.prefixlen ≤ 28)
    × (any (subnet_of c) private_blocks ≡ true)
    × (strict c ≡ true)

pub Separate-sym : (m n : Network) → Separate m n → Separate n m
Separate-sym m n h = (λ x a b. h.0 x b a, λ e. h.1 (sym e))

-- A network of the loop clears what was seen before it.
abbrev pub Fresh : List Cidr → List String → Network → Type 0
Fresh seen bridges n =
    Usable n
    × ((c : Cidr) → n.cidr ≡ some c → any (overlaps c) seen ≡ false)
    × (contains n.bridge bridges ≡ false)

pub usable_literal-some :
    (l : Literal) (c : Cidr)
    → usable_literal l c ≡ true
    → (a : ℕ) × (l ≡ some a) × (usable_in a c ≡ true)
usable_literal-some none c h = cc
usable_literal-some (some a) c h = (a, refl, h)

planned-Usable : (n : Network) (o : Option Cidr) → n.cidr ≡ o → planned n o ≡ true → Usable n
unfolding planned
planned-Usable n none e h = cc
planned-Usable n (some c) e h =
    let (a, g, u) = usable_literal-some n.gateway c (ground arith) in
    (c, a, e, g, u, ground arith, ground arith, ground arith, ground arith)

Fresh-Separate :
    (m n : Network) (c : Cidr) (seen : List Cidr) (bridges : List String)
    → m.cidr ≡ some c
    → Fresh (c ∷ seen) (m.bridge ∷ bridges) n
    → Separate m n
Fresh-Separate m n c seen bridges e (u, o, b) = (apart, other)
  where
    apart : (x : ℕ) → Inside x m → Inside x n → ⊥
    apart x (c', e', i) (d, e'', j) =
        let same : c' ≡ c = cc in
        let free : any (overlaps d) (c ∷ seen) ≡ false = o d e'' in
        let clear : within x c ≡ false = overlaps-within d c x (ground arith) j in cc

    other : m.bridge ≢ n.bridge
    other q = ground (arith, eq_iff m.bridge n.bridge)

Fresh-less :
    (n : Network) (c : Cidr) (b : String) (seen : List Cidr) (bridges : List String)
    → Fresh (c ∷ seen) (b ∷ bridges) n
    → Fresh seen bridges n
Fresh-less n c b seen bridges (u, o, k) =
    (u, λ d e. let free : any (overlaps d) (c ∷ seen) ≡ false = o d e in ground arith, ground arith)

overlaps_any-Fresh :
    (n : Network) (o : Option Cidr) (seen : List Cidr)
    → n.cidr ≡ o
    → overlaps_any o seen ≡ false
    → (c : Cidr) → n.cidr ≡ some c
    → any (overlaps c) seen ≡ false
overlaps_any-Fresh n none seen e h c e' = cc
overlaps_any-Fresh n (some d) seen e h c e' =
    subst (λ t. any (overlaps t) seen ≡ false) (some-eq d c (sym e ∙ e')) h

pub networks_ok-Separate :
    (nets : Zone → Network) (zs : List Zone) (seen : List Cidr) (bridges : List String)
    → networks_ok nets zs seen bridges ≡ true
    → All (λ z. Fresh seen bridges (nets z)) zs × Apart (λ y z. Separate (nets y) (nets z)) zs
unfolding networks_ok
networks_ok-Separate nets [] seen bridges h = (tt, tt)
networks_ok-Separate nets (z ∷ zs) seen bridges h =
    let n = nets z in
    let u : Usable n = planned-Usable n n.cidr refl (ground arith) in
    let c = u.0 in
    let e : n.cidr ≡ some c = u.2 in
    let clear : (d : Cidr) → n.cidr ≡ some d → any (overlaps d) seen ≡ false =
      overlaps_any-Fresh n n.cidr seen refl (ground arith) in
    let next : networks_ok nets zs (c ∷ seen) (n.bridge ∷ bridges) ≡ true =
      ap (λ o. networks_ok nets zs (with_subnet o seen) (n.bridge ∷ bridges)) (sym e)
      ∙ ground arith in
    let (fresh, apart) = networks_ok-Separate nets zs (c ∷ seen) (n.bridge ∷ bridges) next in
    (
      (
        (u, clear, ground arith),
        All-map _ _ zs (λ y f. Fresh-less (nets y) c n.bridge seen bridges f) fresh,
      ),
      (All-map _ _ zs (λ y f. Fresh-Separate n (nets y) c seen bridges e f) fresh, apart),
    )
