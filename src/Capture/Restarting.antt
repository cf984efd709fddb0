-- ===== src/Capture/Restarting.antt =====
-- The finally of _capture in scripts/backup_snapshot.py: every service that may have been stopped
-- is started again, whatever the calls raise.
use resilient_datacenter.Shared.{
  String, Bool, true, false, not, ◌||◌, str_eq, Option, none, some, List, [], ◌∷◌, contains, ◌≡◌,
  inl, inr, arith, Bool-cases,
}
use resilient_datacenter.Shared.Effects.{Signal, failure, interrupt, crash, Out, ok, raised, ◌>>◌}
use resilient_datacenter.Shared.Hoare.{
  Hoare, Post, Pred, bind_rule, seq_rule, weaken_rule, return_rule,
}
use resilient_datacenter.Capture.State.{
  Event, queried, start_requested, Disk, World, is_stopped, answered,
}
use resilient_datacenter.Capture.Capturing.{
  Env, noted, answer_of, query, start, has_failed, restart, restart_all,
}
use resilient_datacenter.Capture.Events.{
  Covers, NoneStopped, Answered, AnsweredBut, Covers-start, AnsweredBut-start, Answered-query,
  Covers-query, AnsweredBut-own,
}
use resilient_datacenter.Capture.Stopping.{Memory, request_rule}

-- Where a call is raised as an Exception, nothing is left stopped.
abbrev pub Halted : Signal → Pred Disk Memory
Halted failure d j = NoneStopped d.events
Halted interrupt d j = Unit {0}
Halted crash d j = Unit {0}

pub NoneStopped-Halted : (s : Signal) (d : Disk) (j : Memory) → NoneStopped d.events → Halted s d j
NoneStopped-Halted failure d j h = h
NoneStopped-Halted interrupt d j h = tt
NoneStopped-Halted crash d j h = tt

Covers-none : (es : List Event) → Covers [] es → NoneStopped es
Covers-none es h n = elim (Bool-cases (is_stopped n es)) [
  | inl t ↦ let none_there : false ≡ true = h n t in absurd (cc)
  | inr f ↦ f
]

module _ {H : Type 0} (env : Env H) (F : Pred Disk Memory)
    (asked : (n : String) (a : Option Bool) (d : Disk) (j : Memory)
      → F d j
      → F (noted (queried n a) d) j)
    (started : (n : String) (d : Disk) (j : Memory)
      → F d j
      → F (noted (start_requested n) d) j) where
  -- `ms` are still to be started; unless one has failed, those of `done` have answered since.
  pub record Restarting (ms done : List String) (has_any : Bool) (d : Disk) (j : Memory)
      : Type 0 where
    pub covers : Covers ms d.events
    pub answers : has_any ≡ false → Answered true done d.events
    pub frame : F d j

  record RestartingAt (m : String) (ms done : List String) (has_any : Bool) (d : Disk) (j : Memory)
      : Type 0 where
    covers : Covers ms d.events
    answers : has_any ≡ false → AnsweredBut true m done d.events
    frame : F d j

  start-At :
      (m : String) (ms done : List String) (c : Bool) (d : Disk) (j : Memory)
      → Restarting (m ∷ ms) done c d j
      → RestartingAt m ms (m ∷ done) c (noted (start_requested m) d) j
  start-At m ms done c d j h = record {
    covers = Covers-start m ms d.events h.covers;
    answers = λ e.
        AnsweredBut-own true m done (start_requested m ∷ d.events)
          (AnsweredBut-start true m done d.events (h.answers e));
    frame = started m d j h.frame;
  }

  abbrev Failing : List String → List String → Signal → Pred Disk Memory
  Failing ms done failure d j = Restarting ms done true d j
  Failing ms done interrupt d j = Unit {0}
  Failing ms done crash d j = Unit {0}

  failing :
      (m : String) (ms done : List String) (c : Bool) (s : Signal) (d : Disk) (j : Memory)
      → RestartingAt m ms done c d j
      → Failing ms done s d j
  failing m ms done c failure d j h = record {
    covers = h.covers;
    answers = λ e. absurd (cc);
    frame = h.frame;
  }
  failing m ms done c interrupt d j h = tt
  failing m ms done c crash d j h = tt

  query-At :
      (m : String) (ms done : List String) (c b : Bool) (d : Disk) (j : Memory)
      → RestartingAt m ms done c d j
      → Restarting ms done (c || not b) (noted (queried m (some b)) d) j
  query-At m ms done c b d j h = record {
    covers = Covers-query m (some b) ms d.events h.covers;
    answers =
        λ e. Answered-query true m (some b) done d.events (ground arith) (h.answers (ground arith));
    frame = asked m (some b) d j h.frame;
  }

  query_none-At :
      (m : String) (ms done : List String) (c : Bool) (s : Signal) (d : Disk) (j : Memory)
      → RestartingAt m ms done c d j
      → Failing ms done s (noted (queried m none) d) j
  query_none-At m ms done c failure d j h = record {
    covers = Covers-query m none ms d.events h.covers;
    answers = λ e. absurd (cc);
    frame = asked m none d j h.frame;
  }
  query_none-At m ms done c interrupt d j h = tt
  query_none-At m ms done c crash d j h = tt

  caught :
      (ms done : List String) (c : Bool) (r : Out Bool × World H)
      → Post (λ b d j. Restarting ms done (c || not b) d j) (Failing ms done) r
      → Post (λ b d j. Restarting ms done (c || b) d j) Halted (has_failed env r.0 r.1)
  caught ms done c (ok b, w) h = h
  caught ms done c (raised failure, w) h = record {
    covers = h.covers;
    answers = λ e. absurd (ground arith);
    frame = h.frame;
  }
  caught ms done c (raised interrupt, w) h = tt
  caught ms done c (raised crash, w) h = tt

  restart_rule :
      (m : String) (ms done : List String) (c : Bool)
      → Hoare
          (Restarting (m ∷ ms) done c)
          (restart env m)
          (λ b. Restarting ms (m ∷ done) (c || b))
          Halted
  unfolding restart start query
  restart_rule m ms done c =
      let h : Hoare (Restarting (m ∷ ms) done c) (start env m >> query env m)
          (λ b. Restarting ms (m ∷ done) (c || not b)) (Failing ms (m ∷ done)) =
        seq_rule
          (request_rule env (λ r. start_requested m) (env.start m)
            (λ a d j. start-At m ms done c d j)
            (λ s d j p. failing m ms (m ∷ done) c s _ j (start-At m ms done c d j p)))
          (request_rule env (λ r. queried m (answer_of r)) (env.is_active m)
            (λ b d j. query-At m ms (m ∷ done) c b d j)
            (λ s d j. query_none-At m ms (m ∷ done) c s d j)) in
      record { at = λ w p. caught ms (m ∷ done) c ((start env m >> query env m) w) (h.at w p) }

  reordered : (a b c : Bool) → a || (b || c) ≡ false → (a || b) || c ≡ false
  reordered a b c h = ground arith

  moved : (a b c : Bool) → (a || b) || c ≡ true → b || (a || c) ≡ true
  moved a b c h = ground arith

  pub restart_all_rule :
      (ms done : List String) (c : Bool)
      → Hoare
          (Restarting ms done c)
          (restart_all env ms)
          (λ b d j.
            NoneStopped d.events
            × F d j
            × (c || b ≡ false
                → (n : String) → contains n ms || contains n done ≡ true
                → answered true n d.events ≡ true))
          Halted
  unfolding restart_all
  restart_all_rule [] done c =
      weaken_rule (return_rule {Q = λ b d j. Restarting [] done (c || b) d j} false)
        (λ d j p. record {
          covers = p.covers;
          answers = λ e. p.answers (ground arith);
          frame = p.frame;
        })
        (λ b d j h. (Covers-none d.events h.covers, h.frame, h.answers)) (λ s d j e. e)
  restart_all_rule (m ∷ ms) done c = bind_rule (restart_rule m ms done c) (λ b.
      bind_rule (restart_all_rule ms (m ∷ done) (c || b)) (λ o.
        weaken_rule (return_rule (b || o))
          (λ d j p. (
            p.0,
            p.1,
            λ e n i.
                p.2 (reordered c b o e) n (moved (str_eq m n) (contains n ms) (contains n done) i),
          ))
          (λ r d j p. p) (λ s d j e. e)))
