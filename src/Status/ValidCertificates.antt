-- ===== src/Status/ValidCertificates.antt =====
-- The certificates of scripts/status_probe.py: what a valid one stands on.
use resilient_datacenter.Shared.{
  ℕ, ◌+◌, String, Bool, true, false, not, ◌||◌, ◌==◌, leb, ltb, str_eq, Option, none, some,
  if◌then◌else◌, ◌≡◌, refl, ap, subst, sym, ◌∙◌, List, [], ◌∷◌, arith,
}
use resilient_datacenter.Shared.Optional.{Returns, bind_rule, raise_rule, if_rule}
use resilient_datacenter.Agreement.Verifying.{hostname}
use resilient_datacenter.Status.States.{certificates}
use resilient_datacenter.Status.Collecting.{
  text, serving_verified, automatic_renewal, expires_at, Evidence, is_known,
}
use resilient_datacenter.Status.Host.{
  Package, matrix, nextcloud, gateway, Found, GatewayCertificate, pending, configured, Host,
}
use resilient_datacenter.Status.Discovering.{is_managed, is_local, discover}
use resilient_datacenter.Status.Probing.{only}
use resilient_datacenter.Status.Certificates.{
  fortnight, judged, certificate_evidence, or_false, or_empty, is_failed, zoned, at_expiry,
  issuer_certificate, gateway_certificate_of, application_certificate, served_certificate,
  infrastructure_evidence, checked_certificate, renewal_failed, managed_certificate,
  sole_certificate, relay_certificate, is_controller, current_managed, infrastructure_certificate,
  package_certificate, certificates_of,
}
use resilient_datacenter.Shared.Hoare.{some-eq}
use resilient_datacenter.Status.Grounds.{
  is_state, is_gateway, Endpoint, renewed, controlling, relaying, Served, by_issuer, by_gateway,
  by_application, by_machine,
}
use resilient_datacenter.Status.Sound.{Sound, Known, known_if}

module _ {A O : Type 0} (host : Host A O) where
  -- A state that is not certificate-valid stands on nothing.
  pub other_certificate :
      (e : Evidence)
      → is_state "certificate-valid" e.state ≡ false
      → is_known certificates e.state ≡ some true
      → Sound host certificates e
  other_certificate e n k = (k, λ y. absurd (cc))

  judged-Known : (v : Bool) (t n : ℕ) → Known host certificates (judged v t n)
  judged-Known v t n = known_if host certificates (not v || leb t n) "certificate-invalid" _ refl (
      known_if host certificates (leb t (n + fortnight)) "certificate-expiring" "certificate-valid"
        refl refl)

  judged-valid :
      (v : Bool) (t n : ℕ)
      → str_eq (judged v t n) "certificate-valid" ≡ true
      → (v ≡ true) × (ltb (n + fortnight) t ≡ true)
  judged-valid v t n e =
      let (fresh, later) = picked (not v || leb t n) (leb t (n + fortnight)) e in
      (verified v (leb t n) fresh, ground arith)
    where
      picked :
          (a b : Bool)
          → str_eq
              (if a
                then "certificate-invalid"
                else if b
                then "certificate-expiring"
                else "certificate-valid")
              "certificate-valid"
            ≡ true
          → (a ≡ false) × (b ≡ false)
      picked true b h = absurd (cc)
      picked false true h = absurd (cc)
      picked false false h = (refl, refl)

      verified : (a b : Bool) → not a || b ≡ false → a ≡ true
      verified a b h = ground arith

  zoned_instant : (o : Option (Option ℕ)) (t : ℕ) → zoned host o ≡ some t → o ≡ some (some t)
  zoned_instant none t e = absurd (cc)
  zoned_instant (some none) t e = absurd (cc)
  zoned_instant (some (some u)) t e = ap some e

  shown_expiry : (o : Option String) → str_eq (or_empty o) "" ≡ false → o ≡ some (or_empty o)
  shown_expiry none h = absurd (cc)
  shown_expiry (some s) h = refl

  verified_flag : (o : Option Bool) → or_false o ≡ true → o ≡ some true
  verified_flag none h = absurd (cc)
  verified_flag (some b) h = ap some h

  module _ (found : Found A O) (seen : discover host ≡ some (some found)) where
    certificate-Sound :
        (v renews : Bool) (t : ℕ) (s : String)
        → (v ≡ true → Served host found.network_record found.application s t)
        → Sound host certificates (certificate_evidence (judged v t host.now) s v renews)
    certificate-Sound v renews t s serving = (
      judged-Known v t host.now,
      λ y.
          let (verified, later) = judged-valid v t host.now y in
          record {
            found = found;
            expiry = s;
            at = t;
            discovered = seen;
            served = serving verified;
            later = later;
            is_verified = ap some verified;
            is_shown = refl;
          },
    )

    at_expiry-Sound :
        (s : String) (v renews : Bool)
        → ((t : ℕ)
            → v ≡ true
            → str_eq s "" ≡ false
            → host.instant s ≡ some (some t)
            → Served host found.network_record found.application s t)
        → Returns (Sound host certificates) (at_expiry host s v renews)
    unfolding at_expiry
    at_expiry-Sound s v renews serving =
        if_rule (Sound host certificates) (str_eq s "") _ _
          (λ t. other_certificate (only "unknown") refl refl)
          (λ f. bind_rule (Sound host certificates) (zoned host (host.instant s)) _ (λ t e.
            certificate-Sound v renews t s
              (λ y. serving t y f (zoned_instant (host.instant s) t e))))

    module _ (p : Package) (a : A) (is_package : found.application ≡ some (p, a)) where
      packaged :
          {s : String} {t : ℕ}
          → Served host found.network_record (some (p, a)) s t
          → Served host found.network_record found.application s t
      packaged {s} {t} h = subst (λ o. Served host found.network_record o s t) (sym is_package) h

      issuer-Sound :
          (r : Evidence)
          → host.has_issuer ≡ true
          → host.issuer_status ≡ some r
          → Returns (Sound host certificates) (issuer_certificate host r)
      unfolding issuer_certificate
      issuer-Sound r issued e =
          if_rule (Sound host certificates) (is_failed r.state) _ _
            (λ t. other_certificate (record r { state = text "renewal-failed" }) refl refl)
            (λ f.
              at_expiry-Sound (or_empty (r.times expires_at)) (or_false (r.flags serving_verified))
                (or_false (r.flags automatic_renewal))
                (λ t v full i. packaged (
                  by_issuer issued e (verified_flag (r.flags serving_verified) v)
                    (shown_expiry (r.times expires_at) full) i)))

      application-Sound :
          host.has_issuer ≡ false
          → is_gateway p ≡ false
          → Returns (Sound host certificates) (application_certificate host)
      unfolding application_certificate
      application-Sound none_issued service =
          bind_rule (Sound host certificates) host.read_settings _ (λ b e.
            bind_rule (Sound host certificates) host.verify_https _ (λ c f.
              bind_rule (Sound host certificates) host.serving_expiry _ (λ u g.
                at_expiry-Sound (host.isoformat u) true false
                  (λ t v full i. packaged (by_application none_issued service e f g i)))))

    gateway_certificate-Sound :
        (a : A) (c : GatewayCertificate)
        → found.application ≡ some (gateway, a)
        → host.has_issuer ≡ false
        → host.gateway_certificate ≡ some c
        → Returns (Sound host certificates) (gateway_certificate_of host c)
    gateway_certificate-Sound a pending k n e = other_certificate (only "change-pending") refl refl
    gateway_certificate-Sound a (configured s v) k n e = at_expiry-Sound s v false (λ t y full i.
        packaged gateway a k (by_gateway n (e ∙ ap (λ b. some (configured s b)) y) i))

    served-Sound :
        (p : Package) (a : A)
        → found.application ≡ some (p, a)
        → host.has_issuer ≡ false
        → Returns (Sound host certificates) (served_certificate host p)
    unfolding served_certificate
    served-Sound gateway a k n =
        bind_rule (Sound host certificates) host.gateway_certificate _
          (λ c e. gateway_certificate-Sound a c k n e)
    served-Sound matrix a k n = application-Sound matrix a k n refl
    served-Sound nextcloud a k n = application-Sound nextcloud a k n refl

    module _ (unused : found.application ≡ none)
        (remote : is_local found.network_record.role ≡ false) where
      infrastructure-Sound :
          (failed automatic : Bool) (name path : String) (t : ℕ)
          → (failed ≡ false → Endpoint host found.network_record name path)
          → host.certificate_expiry path ≡ some t
          → Sound host certificates (infrastructure_evidence host failed automatic name path t)
      infrastructure-Sound true automatic name path t place e =
          other_certificate (infrastructure_evidence host true automatic name path t) refl refl
      infrastructure-Sound false automatic name path t place e =
          certificate-Sound (or_false (host.serves name path)) automatic t (host.isoformat t) (λ v.
            subst (λ o. Served host found.network_record o (host.isoformat t) t) (sym unused)
              (by_machine remote (place refl) e (verified_flag (host.serves name path) v)))

      checked-Sound :
          (failed automatic : Bool) (name path : String)
          → (failed ≡ false → Endpoint host found.network_record name path)
          → Returns (Sound host certificates) (checked_certificate host failed automatic name path)
      unfolding checked_certificate
      checked-Sound failed automatic name path place =
          bind_rule (Sound host certificates) (host.certificate_expiry path) _
            (λ t e. infrastructure-Sound failed automatic name path t place e)

      last_renewal :
          (failed : Bool)
          → renewal_failed host ≡ some failed
          → failed ≡ false
          → host.has_renewal_status ≡ true
          → host.has_renewal_failed ≡ some false
      unfolding renewal_failed
      last_renewal failed e f h =
          sym (ap (λ b. if b then host.has_renewal_failed else some false) h) ∙ (e ∙ ap some f)

      managed-Sound :
          (o : Option String) (name : String)
          → is_managed found.network_record ≡ true
          → host.lifecycle_hostname ≡ some name
          → host.active_generation ≡ some o
          → Returns (Sound host certificates) (managed_certificate host o name)
      unfolding managed_certificate
      managed-Sound none name m l g = other_certificate (only "certificate-invalid") refl refl
      managed-Sound (some path) name m l g =
          bind_rule (Sound host certificates) (renewal_failed host) _ (λ failed e.
            bind_rule (Sound host certificates) (host.is_active "rdc-certificate-renew.timer") _
              (λ rc f. raise_rule (Sound host certificates) (not (rc == 0 || rc == 3)) _ (λ h.
                checked-Sound failed (rc == 0) name path
                  (λ k. renewed m l g (last_renewal failed e k)))))

      sole-eq : (xs : List String) (x : String) → sole_certificate host xs ≡ some x → xs ≡ x ∷ []
      sole-eq [] x e = absurd (cc)
      sole-eq (y ∷ []) x e = ap (λ z. z ∷ []) (some-eq y x e)
      sole-eq (y ∷ z ∷ ys) x e = absurd (cc)

      network_certificate-Sound :
          Returns (Sound host certificates) (infrastructure_certificate host found.network_record)
      unfolding infrastructure_certificate current_managed relay_certificate
      network_certificate-Sound =
          if_rule (Sound host certificates) (is_managed found.network_record) _ _
            (λ m. bind_rule (Sound host certificates) host.lifecycle_hostname _ (λ name l.
              bind_rule (Sound host certificates) host.active_generation _
                (λ o g. managed-Sound o name m l g)))
            (λ m.
              if_rule (Sound host certificates) (is_controller host found.network_record.role) _ _
                (λ c.
                  checked-Sound false false found.network_record.controller_hostname
                    "/etc/headscale/tls.crt" (λ k. controlling m c))
                (λ c.
                  bind_rule (Sound host certificates)
                    (sole_certificate host host.relay_certificates) _
                    (λ name e. raise_rule (Sound host certificates) (not (hostname name)) _ (λ h.
                      checked-Sound false false name name (λ k.
                        relaying m c (sole-eq host.relay_certificates name e)
                          (ground (arith, h)))))))

    pub certificates-Sound :
        (o : Option (Package × A))
        → found.application ≡ o
        → Returns (Sound host certificates) (certificates_of host found.network_record o)
    unfolding package_certificate
    certificates-Sound none k =
        if_rule (Sound host certificates) (is_local found.network_record.role) _ _
          (λ t. other_certificate (only "not-applicable") refl refl)
          (λ f. network_certificate-Sound k f)
    certificates-Sound (some (p, a)) k =
        if_rule (Sound host certificates) host.has_issuer _ _
          (λ t.
            bind_rule (Sound host certificates) host.issuer_status _
              (λ r e. issuer-Sound p a k r t e))
          (λ f. served-Sound p a k f)
