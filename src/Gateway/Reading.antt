-- ===== src/Gateway/Reading.antt =====
-- The operations of a gateway's store that only read, and the review of a recovery.
use resilient_datacenter.Shared.{false, not, ◌||◌, Option, none, some}
use resilient_datacenter.Shared.Effects.{failure}
use resilient_datacenter.Shared.Hoare.{
  Hoare, Pred, bind_rule, seq_rule, pure_rule, raise_rule, write_rule, if_rule, reading_rule,
}
use resilient_datacenter.Shared.Stored.{Stored, absent, unsafe, holds}
use resilient_datacenter.Gateway.State.{Policy, Recovery, Disk, Env}
use resilient_datacenter.Gateway.Store.{
  state, pending, validated, read_pending, same_policy, is_policy, known_floor, load_recovery,
  fresh_documents, reviewed, review_if_any, review,
}
use resilient_datacenter.Gateway.History.{kept}

module _ {A H : Type 0} (env : Env A H) {P : Pred (Disk A) Unit} where
  -- Reading the store changes nothing.
  validated_rule : (x : Stored (Policy A)) → Hoare P (validated env x) (λ _. P) (λ _. P)
  unfolding validated
  validated_rule absent = raise_rule failure
  validated_rule unsafe = raise_rule failure
  validated_rule (holds p) = seq_rule (kept env _) (pure_rule p)

  pub state_rule : Hoare P (state env) (λ _. P) (λ _. P)
  unfolding state
  state_rule = reading_rule _ λ w. validated_rule w.disk.state

  read_pending_rule : (x : Stored (Policy A)) → Hoare P (read_pending env x) (λ _. P) (λ _. P)
  unfolding read_pending
  read_pending_rule absent = pure_rule none
  read_pending_rule unsafe = raise_rule failure
  read_pending_rule (holds p) =
      seq_rule (kept env _) (bind_rule state_rule λ q. seq_rule (kept env _) (pure_rule (some p)))

  pub pending_rule : Hoare P (pending env) (λ _. P) (λ _. P)
  unfolding pending
  pending_rule = reading_rule _ λ w. read_pending_rule w.disk.pending

  known_floor_rule :
      (n : Stored _) (r : Stored Recovery) → Hoare P (known_floor env n r) (λ _. P) (λ _. P)
  unfolding known_floor
  known_floor_rule absent absent = pure_rule none
  known_floor_rule absent (holds r) = pure_rule (some r)
  known_floor_rule absent unsafe = raise_rule failure
  known_floor_rule (holds n) (holds r) = seq_rule (kept env _) (pure_rule (some r))
  known_floor_rule (holds n) absent = raise_rule failure
  known_floor_rule (holds n) unsafe = raise_rule failure
  known_floor_rule unsafe r = raise_rule failure

  pub load_recovery_rule : Hoare P (load_recovery env) (λ _. P) (λ _. P)
  unfolding load_recovery
  load_recovery_rule = reading_rule _ λ w. known_floor_rule w.disk.reference w.disk.recovery

  -- A review changes the recovery record at most.
  pub review_rule :
      ((d : Disk A) (j : Unit) (r : Recovery) → P d j → P (record d { recovery = holds r }) j)
      → (c : Policy A) → Hoare P (review env c) (λ _. P) (λ _. P)
  unfolding review review_if_any reviewed
  review_rule stays c = bind_rule load_recovery_rule reviewing
    where
      reviewing : (o : Option Recovery) → Hoare P (review_if_any env c o) (λ _. P) (λ _. P)
      reviewing none = pure_rule tt
      reviewing (some r) =
          if_rule r.review_pending
            (λ t. bind_rule pending_rule λ o. bind_rule state_rule λ q.
              seq_rule (kept env (not (is_policy env c o) || not (same_policy env q c))) (
                seq_rule (kept env (not (fresh_documents env (some r) c.agreements))) (
                  write_rule env.disturb
                    (λ j d. record d { recovery = holds (record r { review_pending = false }) })
                    (λ d j h. stays d j (record r { review_pending = false }) h) (λ e d j h. h)
                    (λ e d j h. h))))
            (λ f. pure_rule tt)
