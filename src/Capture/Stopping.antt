-- ===== src/Capture/Stopping.antt =====
-- The stops and the copies of scripts/backup_snapshot.py: what is stopped is remembered first, and
-- every service has answered that it is not active when a resource is copied.
use resilient_datacenter.Shared.{
  String, Bool, true, false, ◌||◌, str_eq, none, some, List, [], ◌∷◌, contains, ◌≡◌, refl, subst,
  arith,
}
use resilient_datacenter.Shared.Effects.{Signal, Out, ok, raised, pure}
use resilient_datacenter.Shared.Hoare.{
  Hoare, Post, Pred, bind_rule, seq_rule, weaken_rule, raising_rule, pure_rule, return_rule,
  reading_rule, call_rule, refuse_rule, remember_rule, for_all_rule, write_rule,
}
use resilient_datacenter.Shared.Maintenance.{Call, for_all, call, file_op}
use resilient_datacenter.Shared.Stored.{Stored, unsafe, holds}
use resilient_datacenter.Capture.State.{
  Event, queried, stop_requested, copied, Disk, Metadata, World, CopiedQuietly, active_names,
}
use resilient_datacenter.Capture.Capturing.{
  Env, noted, request, query, stop, copy, stop_service, make_destination, write_metadata, metadata,
  take,
}
use resilient_datacenter.Capture.Events.{
  Covers, Answered, AnsweredBut, Covers-stop, AnsweredBut-again, Answered-query, Covers-query,
  Covers-copy, Answered-copy,
}

abbrev pub Memory : Type 0
Memory = List String

module _ {H A : Type 0} where
  noted-Post :
      {P : Pred Disk Memory} (Q : A → Pred Disk Memory) (E : Signal → Pred Disk Memory)
      (e : Out A → Event) (w : World H) (r : Out A × H)
      → ((a : A) (d : Disk) (j : Memory) → P d j → Q a (noted (e (ok a)) d) j)
      → ((s : Signal) (d : Disk) (j : Memory) → P d j → E s (noted (e (raised s)) d) j)
      → P w.disk w.memory
      → Post Q E (let (o, h) = r in (o, record w { disk = noted (e o) w.disk; host = h }))
  noted-Post Q E e w (ok a, h) q s p = q a w.disk w.memory p
  noted-Post Q E e w (raised x, h) q s p = s x w.disk w.memory p

  pub request_rule :
      {P : Pred Disk Memory} {Q : A → Pred Disk Memory} {E : Signal → Pred Disk Memory}
      (env : Env H) (e : Out A → Event) (f : Call Disk H A)
      → ((a : A) (d : Disk) (j : Memory) → P d j → Q a (noted (e (ok a)) d) j)
      → ((s : Signal) (d : Disk) (j : Memory) → P d j → E s (noted (e (raised s)) d) j)
      → Hoare P (request env e f) Q E
  unfolding request
  request_rule env e f q s = record { at = λ w p. noted-Post _ _ e w (f w.disk w.host) q s p }

module _ {H : Type 0} (env : Env H) (ns : List String) where
  abbrev pub Covered : Signal → Pred Disk Memory
  Covered s d j = Covers j d.events

  -- While the services of `ms` are still to be stopped.
  pub record Stopping (ms : List String) (d : Disk) (j : Memory) : Type 0 where
    pub covers : Covers j d.events
    pub quiet : CopiedQuietly ns d.events
    pub answers : Answered false j d.events
    pub rest : (n : String) → contains n ns ≡ true → contains n ms || contains n j ≡ true

  -- The same while the request to the latest service, `m`, has not been answered.
  record StoppingAt (m : String) (ms : List String) (d : Disk) (j : Memory) : Type 0 where
    covers : Covers j d.events
    quiet : CopiedQuietly ns d.events
    answers : AnsweredBut false m j d.events
    rest : (n : String) → contains n ns ≡ true → contains n ms || contains n j ≡ true
    has : (n : String) → str_eq m n ≡ true → contains n j ≡ true

  remembered :
      (m : String) (ms : List String) (d : Disk) (j : Memory)
      → Stopping (m ∷ ms) d j
      → StoppingAt m ms d (m ∷ j)
  remembered m ms d j s = record {
    covers = λ n h. right (str_eq m n) (contains n j) (s.covers n h);
    quiet = s.quiet;
    answers = λ n i f. s.answers n (subst (λ b. b || contains n j ≡ true) f i);
    rest = λ n i. swapped (str_eq m n) (contains n ms) (contains n j) (s.rest n i);
    has = λ n t. left (str_eq m n) (contains n j) t;
  }
    where
      right : (a b : Bool) → b ≡ true → a || b ≡ true
      right a b h = ground arith

      left : (a b : Bool) → a ≡ true → a || b ≡ true
      left a b h = ground arith

      swapped : (a b c : Bool) → (a || b) || c ≡ true → b || (a || c) ≡ true
      swapped a b c h = ground arith

  stop-At :
      (m : String) (ms : List String) (d : Disk) (j : Memory)
      → StoppingAt m ms d j
      → StoppingAt m ms (noted (stop_requested m) d) j
  stop-At m ms d j s = record {
    covers = Covers-stop m j d.events s.has s.covers;
    quiet = s.quiet;
    answers = AnsweredBut-again false m j d.events s.answers;
    rest = s.rest;
    has = s.has;
  }

  query-At :
      (m : String) (ms : List String) (b : Bool) (d : Disk) (j : Memory)
      → StoppingAt m ms d j
      → b ≡ false
      → Stopping ms (noted (queried m (some b)) d) j
  query-At m ms b d j s e = record {
    covers = Covers-query m (some b) j d.events s.covers;
    quiet = s.quiet;
    answers = Answered-query false m (some b) j d.events (rw e refl) s.answers;
    rest = s.rest;
  }

  stop_service_rule :
      (m : String) (ms : List String)
      → Hoare (Stopping (m ∷ ms)) (stop_service env m) (λ a. Stopping ms) Covered
  unfolding stop_service stop query
  stop_service_rule m ms = seq_rule (remember_rule (λ j. m ∷ j) (remembered m ms)) (
      seq_rule
        (request_rule env _ _ (λ a d j. stop-At m ms d j) (λ s d j h. (stop-At m ms d j h).covers))
        (bind_rule
          (request_rule {Q = λ b d j. (b ≡ false → Stopping ms d j) × Covers j d.events} env _ _
            (λ b d j h. (query-At m ms b d j h, Covers-query m (some b) j d.events h.covers))
            (λ s d j h. Covers-query m none j d.events h.covers))
          (λ still.
            weaken_rule (refuse_rule still) (λ d j p. p) (λ a d j p. p.0.0 p.1) (λ s d j p. p.1))))

  pub stop_all_rule :
      (ms : List String)
      → Hoare (Stopping ms) (for_all ms (stop_service env)) (λ a. Stopping []) Covered
  unfolding for_all
  stop_all_rule [] = return_rule tt
  stop_all_rule (m ∷ ms) = seq_rule (stop_service_rule m ms) (stop_all_rule ms)

  copy-At :
      (m : String) (d : Disk) (j : Memory) → Stopping [] d j → Stopping [] (noted (copied m) d) j
  copy-At m d j s = record {
    covers = Covers-copy m j d.events s.covers;
    quiet = (λ n i. s.answers n (s.rest n i), s.quiet);
    answers = Answered-copy false m j d.events s.answers;
    rest = s.rest;
  }

  copy_rule : (m : String) → Hoare (Stopping []) (copy env m) (λ a. Stopping []) Covered
  unfolding copy
  copy_rule m =
      request_rule env (λ r. copied m) (env.copy_resource m) (λ a d j. copy-At m d j)
        (λ s d j h. (copy-At m d j h).covers)

  -- A file operation on the destination.
  writes_rule :
      (g : Stored Metadata)
      → Hoare
          (Stopping [])
          (file_op env.disturb (λ d. some (record d { destination = g })))
          (λ a d j. Stopping [] d j × (d.destination ≡ g))
          Covered
  writes_rule g =
      write_rule env.disturb (λ j d. record d { destination = g })
        (λ d j s.
          (record { covers = s.covers; quiet = s.quiet; answers = s.answers; rest = s.rest }, refl))
        (λ s d j h. h.covers) (λ s d j h. h.0.covers)

  reading :
      {A : Type 0} (f : Call Disk H A) → Hoare (Stopping []) (call f) (λ a. Stopping []) Covered
  reading f = raising_rule (call_rule f) (λ s d j h. h.covers)

  pub take_rule :
      (hashes : String) (original : List (String × Bool))
      → Hoare
          (Stopping (active_names original))
          (take env hashes original)
          (λ m d j.
            Stopping [] d j × (d.destination ≡ holds m) × (m.services_originally_active ≡ original))
          Covered
  unfolding take make_destination write_metadata
  take_rule hashes original = seq_rule (stop_all_rule (active_names original)) (
      bind_rule (reading_rule (λ w. pure (env.now w.host)) (λ w. pure_rule (env.now w.host))) (λ at.
        bind_rule (reading env.inspect_resources) (λ size.
          seq_rule (weaken_rule (writes_rule unsafe) (λ d j p. p) (λ a d j p. p.0) (λ s d j e. e)) (
            seq_rule (for_all_rule env.paths copy_rule) (
              seq_rule (reading env.validate_data) (
                seq_rule (writes_rule (holds (metadata env hashes original at))) (
                  weaken_rule
                    (return_rule
                      {Q = λ m d j.
                        Stopping [] d j
                        × (d.destination ≡ holds m)
                        × (m.services_originally_active ≡ original)}
                      (metadata env hashes original at))
                    (λ d j p. (p.0, p.1, refl)) (λ a d j p. p) (λ s d j e. e))))))))
