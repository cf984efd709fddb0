-- ===== src/Capture/Safety.antt =====
-- What a capture leaves of the services, in scripts/backup_snapshot.py.
use resilient_datacenter.Shared.{
  ℕ, String, Bool, true, false, ◌&&◌, not, Option, none, some, List, [], ◌∷◌, contains, ◌≡◌, refl,
  sym, subst, arith,
}
use resilient_datacenter.Shared.Effects.{
  Signal, failure, interrupt, crash, Out, ok, raised, pure, raise, refuse_if, ◌>>◌,
}
use resilient_datacenter.Shared.Hoare.{
  Hoare, Post, Pred, bind_rule, seq_rule, weaken_rule, raising_rule, pure_rule, raise_rule,
  return_rule, fact_rule, reading_rule, if_rule, call_rule, refuse_rule, for_all_rule,
}
use resilient_datacenter.Shared.Maintenance.{Call, call}
use resilient_datacenter.Shared.Stored.{Stored, holds}
use resilient_datacenter.Shared.Texts.{starts_with, ends_with}
use resilient_datacenter.Restore.Plan.{too_small}
use resilient_datacenter.Capture.State.{
  queried, Disk, Metadata, World, is_stopped, CopiedQuietly, active_names,
}
use resilient_datacenter.Capture.Capturing.{
  Env, noted, admits, answer_of, is_there, query, original_states, verify_service, take, discarding,
  remove_destination, recover_services, finally, guarded, capture_now, capture,
}
use resilient_datacenter.Capture.Events.{Covers, NoneStopped, Answered, NoneStopped-query}
use resilient_datacenter.Capture.Stopping.{Memory, Stopping, request_rule, take_rule}
use resilient_datacenter.Capture.Restarting.{Halted, NoneStopped-Halted}
use resilient_datacenter.Capture.Recovering.{remove_rule, recover_services_rule}

-- What holds where a capture returns its metadata.
abbrev pub Captured : Metadata → Pred Disk Memory
Captured m d j =
    (d.destination ≡ holds m)
    × CopiedQuietly (active_names m.services_originally_active) d.events
    × NoneStopped d.events
    × Answered true (active_names m.services_originally_active) d.events

module _ {H : Type 0} (env : Env H) (original : List (String × Bool)) where
  abbrev Taken : Metadata → Pred Disk Memory
  Taken m d j =
      Stopping env (active_names original) [] d j
      × (d.destination ≡ holds m)
      × (m.services_originally_active ≡ original)

  abbrev Aborting : Signal → Pred Disk Memory
  Aborting failure d j = Covers j d.events
  Aborting interrupt d j = Covers j d.events
  Aborting crash d j = Unit {0}

  Covers-Aborting : (s : Signal) (d : Disk) (j : Memory) → Covers j d.events → Aborting s d j
  Covers-Aborting failure d j h = h
  Covers-Aborting interrupt d j h = h
  Covers-Aborting crash d j h = tt

  discard_rule :
      (s : Signal)
      → Hoare (λ d j. Covers j d.events) (remove_destination env >> raise s) Taken Aborting
  discard_rule s =
      seq_rule (raising_rule (remove_rule env (λ es j. Covers j es)) Covers-Aborting)
        (raising_rule (raise_rule s) Covers-Aborting)

  discarded :
      (r : Out Metadata × World H)
      → Post Taken (λ s d j. Covers j d.events) r
      → Post Taken Aborting (discarding env r.0 r.1)
  unfolding discarding
  discarded (ok m, w) h = h
  discarded (raised failure, w) h = (discard_rule failure).at w h
  discarded (raised interrupt, w) h = (discard_rule interrupt).at w h
  discarded (raised crash, w) h = tt

  abbrev Ready : Metadata → Pred Disk Memory
  Ready m d j =
      (d.destination ≡ holds m)
      × CopiedQuietly (active_names original) d.events
      × ((n : String) → contains n (active_names original) ≡ true → contains n j ≡ true)

  recovered_rule : (m : Metadata) → Hoare (Taken m) (recover_services env >> pure m) Captured Halted
  recovered_rule m =
      fact_rule (m.services_originally_active ≡ original) (λ d j p. p.2)
        (λ e.
          seq_rule
            (weaken_rule (recover_services_rule env (Ready m) (λ n a d j f. f) (λ n d j f. f))
              (λ d j p. (p.0.covers, (p.1, p.0.quiet, p.0.rest))) (λ a d j p. captured e d j p)
              (λ s d j x. x))
            (return_rule m))
    where
      captured :
          m.services_originally_active ≡ original
          → (d : Disk) (j : Memory) → NoneStopped d.events × Ready m d j × Answered true j d.events
          → Captured m d j
      captured e d j p =
          subst
            (λ o.
              (d.destination ≡ holds m)
              × CopiedQuietly (active_names o) d.events
              × NoneStopped d.events
              × Answered true (active_names o) d.events)
            (sym e) (p.1.0, p.1.1, p.0, λ n i. p.2 n (p.1.2 n i))

  aborted_rule :
      (s : Signal)
      → Hoare (λ d j. Covers j d.events) (recover_services env >> raise s) Captured Halted
  aborted_rule s =
      seq_rule
        (weaken_rule (recover_services_rule env (λ d j. Unit {0}) (λ n a d j f. tt) (λ n d j f. tt))
          (λ d j p. (p, tt)) (λ a d j p. p.0) (λ s d j e. e))
        (raising_rule (raise_rule s) (λ s d j h. NoneStopped-Halted s d j h))

  finished :
      (r : Out Metadata × World H)
      → Post Taken Aborting r
      → Post Captured Halted (finally env r.0 r.1)
  unfolding finally
  finished (ok m, w) h = (recovered_rule m).at w h
  finished (raised failure, w) h = (aborted_rule failure).at w h
  finished (raised interrupt, w) h = (aborted_rule interrupt).at w h
  finished (raised crash, w) h = tt

  guarded_rule :
      (hashes : String)
      → Hoare
          (Stopping env (active_names original) (active_names original))
          (guarded env hashes original)
          Captured
          Halted
  unfolding guarded
  guarded_rule hashes = record {
    at = λ w p.
        let r = take env hashes original w in
        let q = discarding env r.0 r.1 in
        finished q (discarded r ((take_rule env (active_names original) hashes original).at w p));
  }

module _ {H : Type 0} (env : Env H) where
  -- Nothing was stopped or copied, and nothing is remembered.
  record Idle (d : Disk) (j : Memory) : Type 0 where
    none_stopped : NoneStopped d.events
    quiet : (ns : List String) → CopiedQuietly ns d.events
    memory : j ≡ []

  Idle-Halted : (s : Signal) (d : Disk) (j : Memory) → Idle d j → Halted s d j
  Idle-Halted s d j h = NoneStopped-Halted s d j h.none_stopped

  query-Idle :
      (n : String) (a : Option Bool) (d : Disk) (j : Memory)
      → Idle d j
      → Idle (noted (queried n a) d) j
  query-Idle n a d j h = record {
    none_stopped = NoneStopped-query n a d.events h.none_stopped;
    quiet = h.quiet;
    memory = h.memory;
  }

  call-Idle : {A : Type 0} (f : Call Disk H A) → Hoare Idle (call f) (λ a. Idle) Halted
  call-Idle f = raising_rule (call_rule f) Idle-Halted

  refuse_if-Idle : (b : World H → Bool) → Hoare Idle (λ w. refuse_if (b w) w) (λ a. Idle) Halted
  refuse_if-Idle b =
      reading_rule (λ w. refuse_if (b w))
        (λ w. weaken_rule (refuse_rule (b w)) (λ d j p. p) (λ a d j p. p.0) Idle-Halted)

  original_states_rule : (ns : List String) → Hoare Idle (original_states env ns) (λ a. Idle) Halted
  unfolding original_states query
  original_states_rule [] = pure_rule []
  original_states_rule (n ∷ ns) =
      bind_rule
        (request_rule env (λ r. queried n (answer_of r)) (env.is_active n)
          (λ b d j. query-Idle n (some b) d j)
          (λ s d j h. NoneStopped-Halted s _ j (query-Idle n none d j h).none_stopped))
        (λ b. bind_rule (original_states_rule ns) (λ rest. pure_rule ((n, b) ∷ rest)))

  verify_service_rule : (n : String) → Hoare Idle (verify_service env n) (λ a. Idle) Halted
  unfolding verify_service
  verify_service_rule n =
      if_rule (starts_with "rdc-" n && ends_with ".timer" n) (λ t. pure_rule tt)
        (λ f. call-Idle (env.verify_running n))

  Idle-Stopping : (ns : List String) (d : Disk) (j : Memory) → Idle d j → Stopping env ns ns d j
  Idle-Stopping ns d j h = record {
    covers = λ n s. let no : is_stopped n d.events ≡ false = h.none_stopped n in absurd (cc);
    quiet = h.quiet ns;
    answers =
        λ n i. let t : false ≡ true = subst (λ m. contains n m ≡ true) h.memory i in absurd (cc);
    rest = λ n i. ground arith;
  }

  capture_now_rule : Hoare Idle (capture_now env) Captured Halted
  unfolding capture_now
  capture_now_rule = seq_rule (refuse_if-Idle (λ w. is_there w.disk.destination)) (
      bind_rule (call-Idle env.inspect_resources) (λ size.
        seq_rule (refuse_if-Idle (λ w. too_small (env.free w.host) size)) (
          bind_rule (call-Idle env.component_hashes) (λ hashes.
            bind_rule (original_states_rule env.services) (λ original.
              seq_rule (for_all_rule (active_names original) verify_service_rule) (
                weaken_rule (guarded_rule env original hashes)
                  (λ d j p. Idle-Stopping (active_names original) d j p) (λ m d j q. q)
                  (λ s d j e. e)))))))

  capture_rule : (upgrade_id : Option ℕ) → Hoare Idle (capture env upgrade_id) Captured Halted
  unfolding capture
  capture_rule upgrade_id = seq_rule (refuse_if-Idle (λ w. env.is_restore_pending w.host)) (
      seq_rule
        (refuse_if-Idle (λ w. not (admits env.owner (env.pending_upgrade w.host) upgrade_id)))
        (seq_rule (refuse_if-Idle (λ w. not (env.is_owned w.host))) (
          seq_rule (call-Idle env.verify_installed)
            (seq_rule (call-Idle env.enter) capture_now_rule))))

  started_at : (ds : Stored Metadata) → Idle (record { destination = ds; events = [] }) []
  unfolding is_stopped
  started_at ds = record { none_stopped = λ n. refl; quiet = λ ns. tt; memory = refl }

  -- A snapshot that capture returns is the one that it has written; each resource was copied while
  -- every service that was active had answered that it is not; and whether it returns or raises an
  -- Exception, no service is left with a request to stop as its last request. Where it returns, each
  -- service that was active has answered so again since its start.
  pub capture-Restarted :
      (upgrade_id : Option ℕ) (h : H) (destination : Stored Metadata)
      → Post Captured Halted (
          capture env upgrade_id (record {
            disk = record { destination = destination; events = [] };
            memory = [];
            host = h;
          }))
  capture-Restarted upgrade_id h destination =
      (capture_rule upgrade_id).at _ (started_at destination)
