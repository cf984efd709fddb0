-- ===== src/Status/Healthy.antt =====
-- The status that asks for nothing, down to what scripts/status_probe.py has read.
use resilient_datacenter.Shared.{
  String, Bool, true, false, contains, Option, none, some, ◌≡◌, refl, subst, ap, ◌∙◌, sym,
}
use resilient_datacenter.Shared.Apart.{All, All-map}
use resilient_datacenter.Shared.Hoare.{some-eq}
use resilient_datacenter.Shared.Optional.{Returns, bind_rule, if_rule, returned, ◌>>=◌}
use resilient_datacenter.Status.States.{
  Dimension, network, applications, certificates, backup, recovery, partners, dimensions,
  informational,
}
use resilient_datacenter.Status.Collecting.{
  text, Evidence, unknown, is_known, sanitize, item_of, collect, needs_attention, text_of,
}
use resilient_datacenter.Status.Attention.{Fine, known_text, needs_attention-Fine}
use resilient_datacenter.Status.Host.{Found, Host}
use resilient_datacenter.Status.Discovering.{discover}
use resilient_datacenter.Status.Probing
use resilient_datacenter.Status.Probing.{only}
use resilient_datacenter.Status.Certificates
use resilient_datacenter.Status.Worker.{
  probe, probe_found, answered, worker, read_output, run_probe,
}
use resilient_datacenter.Status.Grounds.{is_state}
use resilient_datacenter.Status.Sound.{
  Justified, Sound, network-Sound, applications-Sound, partners-Sound,
}
use resilient_datacenter.Status.ValidCertificates.{other_certificate, certificates-Sound}
use resilient_datacenter.Status.CurrentBackups.{
  other_backup, other_recovery, backup-Sound, latest-Sound,
}

unconfigured-Known : (d : Dimension) → is_known d (text "not-configured") ≡ some true
unconfigured-Known network = refl
unconfigured-Known applications = refl
unconfigured-Known certificates = refl
unconfigured-Known backup = refl
unconfigured-Known recovery = refl
unconfigured-Known partners = refl

upgrade-Known : (d : Dimension) → is_known d (text "upgrade-pending") ≡ some true
upgrade-Known network = refl
upgrade-Known applications = refl
upgrade-Known certificates = refl
upgrade-Known backup = refl
upgrade-Known recovery = refl
upgrade-Known partners = refl

restore-Known : (d : Dimension) → is_known d (text "restore-pending") ≡ some true
restore-Known network = refl
restore-Known applications = refl
restore-Known certificates = refl
restore-Known backup = refl
restore-Known recovery = refl
restore-Known partners = refl

unknown-Known : (d : Dimension) → is_known d (text "unknown") ≡ some true
unknown-Known network = refl
unknown-Known applications = refl
unknown-Known certificates = refl
unknown-Known backup = refl
unknown-Known recovery = refl
unknown-Known partners = refl

module _ {A O : Type 0} (host : Host A O) where
  -- A state that every dimension has, and that stands on nothing.
  common-Sound :
      (d : Dimension) (e : Evidence)
      → ((d : Dimension) → is_known d e.state ≡ some true)
      → is_state "certificate-valid" e.state ≡ false
      → is_state "backup-current" e.state ≡ false
      → is_state "service-listeners-verified" e.state ≡ false
      → is_state "service-verified" e.state ≡ false
      → Sound host d e
  common-Sound network e k c b s r = (k network, tt)
  common-Sound applications e k c b s r = (k applications, λ y. absurd (cc))
  common-Sound certificates e k c b s r = other_certificate host e c (k certificates)
  common-Sound backup e k c b s r = other_backup host e b (k backup)
  common-Sound recovery e k c b s r = other_recovery host e r (k recovery)
  common-Sound partners e k c b s r = (k partners, tt)

  found-Sound :
      (d : Dimension) (o : Option (Found A O))
      → discover host ≡ some o
      → Returns (Sound host d) (probe_found host d o)
  unfolding Probing.network_status Probing.applications Probing.partners Certificates.certificates
  found-Sound d none seen =
      common-Sound d (only "not-configured") unconfigured-Known refl refl refl refl
  found-Sound recovery (some found) seen = latest-Sound host found seen
  found-Sound network (some found) seen = network-Sound host found.network_record.role
  found-Sound applications (some found) seen = applications-Sound host found seen found.application
  found-Sound certificates (some found) seen =
      certificates-Sound host found seen found.application refl
  found-Sound backup (some found) seen = backup-Sound host found seen
  found-Sound partners (some found) seen = partners-Sound host found.application

  probe-Sound : (d : Dimension) → Returns (Sound host d) (probe host d)
  unfolding probe
  probe-Sound d =
      if_rule (Sound host d) host.is_upgrade_pending _ _
        (λ t. common-Sound d (only "upgrade-pending") upgrade-Known refl refl refl refl)
        (λ f.
          if_rule (Sound host d) host.is_restore_pending _ _
            (λ t. common-Sound d (only "restore-pending") restore-Known refl refl refl refl)
            (λ g.
              bind_rule (Sound host d) (discover host) (probe_found host d)
                (λ o e. found-Sound d o e)))

  answered-Sound :
      (d : Dimension) (is_caught : Bool) (o : Option Evidence)
      → Returns (Sound host d) o
      → Returns (Sound host d) (answered host is_caught o)
  answered-Sound d true none h = common-Sound d unknown unknown-Known refl refl refl refl
  answered-Sound d false none h = tt
  answered-Sound d is_caught (some e) h = h

  sanitize_answer :
      (is_zoned : String → Bool) (d : Dimension) (o : Option Evidence)
      → Returns (Sound host d) o
      → (o >>= λ e. sanitize is_zoned d (some e)) ≡ (o >>= λ e. some (item_of is_zoned d e))
  unfolding sanitize
  sanitize_answer is_zoned d none h = refl
  sanitize_answer is_zoned d (some e) h = let known = h.0 in rw known refl

  -- For each dimension the worker prints exactly the item of the evidence that its probe returns, or
  -- of the unknown one where the probe raises an exception that the worker catches; where it raises
  -- another one, and only there, the worker prints nothing: on no host does a probe return a state
  -- that is refused.
  pub worker-item_of :
      (is_zoned : String → Bool) (d : Dimension)
      → worker host is_zoned d
        ≡ (answered host (host.is_caught d) (probe host d) >>= λ e. some (item_of is_zoned d e))
  unfolding worker
  worker-item_of is_zoned d =
      sanitize_answer is_zoned d (answered host (host.is_caught d) (probe host d))
        (answered-Sound d (host.is_caught d) (probe host d) (probe-Sound d))

  -- The probe of the dimension has returned an informational state, and what it stands on.
  abbrev pub Healthy : Dimension → Type 0
  Healthy d =
      (e : Evidence) × ((s : String) × ((probe host d ≡ some e)
          × ((e.state ≡ text s) × ((contains s informational ≡ true) × Justified host d e))))

  module _ (is_zoned : String → Bool) where
    -- What the parent reads of a worker is the state that the probe returned.
    read_state :
        (d : Dimension) (is_caught : Bool) (o : Option Evidence) (e : Evidence) (s : String)
        → read_output host (answered host is_caught o >>= λ v. some (item_of is_zoned d v))
          ≡ some (some e)
        → e.state ≡ text s
        → contains s informational ≡ true
        → Returns (Sound host d) o
        → (v : Evidence) × ((o ≡ some v) × (text_of v.state ≡ s))
    unfolding item_of
    read_state d true none e s given is_text calm h =
        let printed = ap (λ v. text_of v.state) (some-eq _ e (some-eq _ (some e) given)) in
        let t : false ≡ true =
          subst (λ x. contains x informational ≡ true) (sym (printed ∙ ap text_of is_text)) calm in
        absurd (cc)
    read_state d false none e s given is_text calm h = absurd (cc)
    read_state d is_caught (some v) e s given is_text calm h =
        let printed = ap (λ x. text_of x.state) (some-eq _ e (some-eq _ (some e) given)) in
        (v, (refl, printed ∙ ap text_of is_text))

    Fine-Healthy : (d : Dimension) → Fine d (run_probe host is_zoned d) → Healthy d
    unfolding run_probe
    Fine-Healthy d (e, (s, (given, (is_text, (listed, calm))))) =
        let (v, (returned_so, same)) =
          read_state d (host.is_caught d) (probe host d) e s
            (sym (ap (read_output host) (worker-item_of is_zoned d)) ∙ given) is_text calm
            (probe-Sound d) in
        let sound = returned (Sound host d) (probe host d) v (probe-Sound d) returned_so in
        let (x, (is, known)) = known_text d v.state sound.0 in
        (
          v,
          (
            x,
            (
              returned_so,
              (
                is,
                (
                  subst (λ y. contains y informational ≡ true) (sym (sym (ap text_of is) ∙ same))
                      calm,
                  sound.1,
                ),
              ),
            ),
          ),
        )

    -- Where the status asks for nothing, the probe of every dimension has returned, with a state that
    -- is informational. A certificate that it calls valid is the one of what discover has found, was
    -- found to be served where it is used, and expires after more than 14 days. A backup that it calls
    -- current belongs to the owner that discover has found; the last attempt on record has not failed;
    -- and the age that it shows is that of a listed snapshot, which is not overdue by the schedule on
    -- record, or a daily one where there is none. Where it calls the service's listeners verified, every
    -- component runs, has passed the check of its image and answers; and where it calls the recovery
    -- verified, a restoration of that owner is on record, which has ended and was verified with the
    -- components that are installed now.
    pub needs_attention-Healthy :
        needs_attention (collect is_zoned (run_probe host is_zoned)) ≡ false
        → All (λ d. Healthy d) dimensions
    needs_attention-Healthy calm =
        All-map (λ d. Fine d (run_probe host is_zoned d)) Healthy dimensions Fine-Healthy
          (needs_attention-Fine is_zoned (run_probe host is_zoned) calm)
