-- ===== src/Restore/Applying.antt =====
-- apply: however it ends, the disk is consistent, and its answer is true.
use resilient_datacenter.Shared.{
  ℕ, String, ◌≡◌, refl, sym, ap, ◌∙◌, ◌⊎◌, inl, inr, Option, List, arith, length, str_eq,
}
use resilient_datacenter.Shared.Effects.{Signal, pure, ◌>>◌}
use resilient_datacenter.Shared.Maintenance.{call, for_each, for_all_reversed}
use resilient_datacenter.Shared.Hoare.{
  Hoare, Pred, bind_rule, seq_rule, raising_rule, weaken_rule, return_rule, pure_rule, call_rule,
  if_rule, refuse_rule, for_all_rule, for_all_reversed_rule, for_each_rule, memory_rule, fact_rule,
  remember_rule, beyond-eq-add,
}
use resilient_datacenter.Restore.State.{Phase, preparing, validating, committed, Journal, Disk}
use resilient_datacenter.Restore.Files.{Env, save, set_phase}
use resilient_datacenter.Restore.Rollback.{check_components, finish}
use resilient_datacenter.Restore.Transaction.{
  restored_service_verified, swap, stop_service, start_service, promote_data,
}
use resilient_datacenter.Restore.Invariant.{Kept, AllKept, ByPhase, Consistent, Under, save_rule}
use resilient_datacenter.Restore.Finishing.{
  Settled, Closed, finish-Closed, Pending-as, committed-Consistent,
}
use resilient_datacenter.Restore.RollingBack.{check_components_rule}
use resilient_datacenter.Restore.Recovering.{Recovered}
use resilient_datacenter.Restore.Preparing.{candidate, Prepared, prepare_candidate-Prepared}
use resilient_datacenter.Restore.Swapping.{Swapped, Swapping, swap-Swapping}

module _ {T H : Type 0} (env : Env T H) (count : ℕ) (original : ℕ → T) where
  abbrev pub built : ℕ → Option T
  built = candidate env count original

  abbrev pub Steady : Disk T → Type 0
  Steady d = Consistent count original built d

  -- What the `except` clauses of apply find: the previous data is kept under a phase before the
  -- commit, or the journal in memory says `committed` and the disk is consistent.
  pub data Trouble (d : Disk T) (j : Journal) : Type 0 where
    undecided :
        (p : Phase)
        → ((x : Disk T) → AllKept count original x → ByPhase count original built p x)
        → Under env count p (λ i. Kept (original i)) d j
        → Trouble d j
    decided : j.phase ≡ committed → Steady d → Trouble d j

  pub Trouble-Steady : (d : Disk T) (j : Journal) → Trouble d j → Steady d
  Trouble-Steady d j (undecided p safe h) =
      Pending-as env count original built p d j h.0 (safe d h.1)
  Trouble-Steady d j (decided e h) = h

  preparing-Trouble :
      (e : Signal) (d : Disk T) (j : Journal)
      → Under env count preparing (λ i. Kept (original i)) d j
      → Trouble d j
  preparing-Trouble e d j h = undecided preparing (λ x k. k) h

  Swapped-Trouble :
      (p : Phase)
      → ((x : Disk T) → AllKept count original x → ByPhase count original built p x)
      → (e : Signal) (d : Disk T) (j : Journal) → Under env count p (Swapped env count original) d j
      → Trouble d j
  Swapped-Trouble p safe e d j h = undecided p safe (h.0, λ i lt. inl (h.1 i lt).0)

  abbrev pub Untouched : Pred (Disk T) Journal
  Untouched = Under env count preparing (Prepared env count original 0)

  stop_service_rule :
      {P : Pred (Disk T) Journal} (n : String) → Hoare P (stop_service env n) (λ _. P) (λ _. P)
  unfolding stop_service
  stop_service_rule n = seq_rule (call_rule _) (
      bind_rule (call_rule (env.is_active n))
        λ b. weaken_rule (refuse_rule b) (λ d j h. h) (λ a d j h. h.0) (λ e d j h. h))

  start_service_rule :
      {P : Pred (Disk T) Journal} (n : String) → Hoare P (start_service env n) (λ _. P) (λ _. P)
  unfolding start_service
  start_service_rule n =
      seq_rule (if_rule (str_eq n "rdc-synapse") (λ b. call_rule _) (λ b. pure_rule tt))
        (call_rule _)

  finishing-Trouble :
      (d : Disk T) (j : Journal)
      → Settled env count committed built d j ⊎ Closed env count committed built d j
      → Trouble d j
  finishing-Trouble d j (inl h) =
      decided h.0 (committed-Consistent env count original built d j (inl h))
  finishing-Trouble d j (inr h) =
      decided h.0 (committed-Consistent env count original built d j (inr h))

  pub untouched : (e : Signal) (d : Disk T) (j : Journal) → Untouched d j → Trouble d j
  untouched e d j h = preparing-Trouble e d j (h.0, λ i lt. inr ((h.1 i lt).0.1, (h.1 i lt).0.0))

  -- From the swapped resources on, promote validates, commits and finishes.
  commit-Restored :
      Hoare
        (Under env count validating (Swapped env count original))
        (set_phase committed >> (save env >> (finish env >> pure restored_service_verified)))
        (λ o d j. Recovered count original built o d)
        (λ _. Trouble)
  commit-Restored =
      seq_rule
        (remember_rule
          {Q = λ d j.
            Under env count validating (Swapped env count original) d j × (j.phase ≡ committed)}
          (λ j. record j { phase = committed })
          (λ d j h. (
            (record { marked = h.0.marked; written = h.0.written; counted = h.0.counted }, h.1),
            refl,
          )))
        (seq_rule
          (save_rule env count validating committed (Swapped env count original)
            (λ e d j h. Swapped-Trouble validating (λ x k. k) e d j h.0)
            (λ e d j h.
              decided h.1
                (Pending-as env count original built committed d j h.0.0 (λ i lt. (h.0.1 i lt).1))))
          (seq_rule
            (weaken_rule (finish-Closed env count committed built)
              (λ d j h. (h.1, h.0.0, λ i lt. (h.0.1 i lt).1)) (λ a d j h. (h.1, h.2))
              (λ e d j h. finishing-Trouble d j h))
            (return_rule restored_service_verified)))

  -- The second half of promote: the candidates are ready, and are swapped in and validated.
  swap_in-Restored :
      (names : List String)
      → length names ≡ count
      → Hoare
          (Under env count preparing (Prepared env count original count))
          (for_each 0 names (λ i n. swap env i)
            >> (set_phase validating
                >> (save env
                    >> (check_components env
                        >> (call env.allow_validation
                            >> (for_all_reversed env.services (start_service env)
                                >> (call env.verify
                                    >> (set_phase committed
                                        >> (save env
                                            >> (finish env
                                                >> pure restored_service_verified))))))))))
          (λ o d j. Recovered count original built o d)
          (λ _. Trouble)
  swap_in-Restored names len =
      seq_rule {Q = Under env count preparing (Swapped env count original)}
        (weaken_rule
          (for_each_rule (λ k. Under env count preparing (Swapping env count original k)) 0 names
            (λ k n. swap-Swapping env count original preparing preparing-Trouble k))
          (λ d j h.
            (h.0, λ i lt. (λ l. ((h.1 i lt).0, (h.1 i lt).1 lt), λ l. absurd (omega arith))))
          (λ a d j h. (h.0, λ i lt. (h.1 i lt).1 (omega (arith, beyond-eq-add 0 names))))
          (λ e d j h. h))
        (seq_rule
          (remember_rule
            {Q = λ d j.
              Under env count preparing (Swapped env count original) d j × (j.phase ≡ validating)}
            (λ j. record j { phase = validating })
            (λ d j h. (
              (record { marked = h.0.marked; written = h.0.written; counted = h.0.counted }, h.1),
              refl,
            )))
          (seq_rule
            (weaken_rule
              (save_rule env count preparing validating (Swapped env count original)
                (λ e d j h. Swapped-Trouble preparing (λ x k. k) e d j h.0)
                (λ e d j h. Swapped-Trouble validating (λ x k. k) e d j h.0))
              (λ d j h. h) (λ a d j h. h.0) (λ e d j h. h))
            (seq_rule (raising_rule (check_components_rule env) validated) (
              seq_rule (raising_rule (call_rule env.allow_validation) validated) (
                seq_rule
                  (for_all_reversed_rule env.services
                    λ n. raising_rule (start_service_rule n) validated)
                  (seq_rule (raising_rule (call_rule env.verify) validated) commit-Restored))))))
    where
      validated :
          (e : Signal) (d : Disk T) (j : Journal)
          → Under env count validating (Swapped env count original) d j
          → Trouble d j
      validated = Swapped-Trouble validating (λ x k. k)

  -- The body of apply's `try`, after the gateway's store was suspended.
  pub promote_data-Restored :
      Hoare Untouched
        (promote_data env)
        (λ o d j. Recovered count original built o d)
        (λ _. Trouble)
  unfolding promote_data
  promote_data-Restored = bind_rule memory_rule λ j.
      fact_rule (length j.paths ≡ count)
        (λ d k h. sym (ap (λ (x : Journal). length x.paths) h.1) ∙ h.0.0.counted)
        λ len.
          seq_rule
            (weaken_rule
              (for_each_rule (λ k. Under env count preparing (Prepared env count original k)) 0
                j.paths
                (λ k n.
                  prepare_candidate-Prepared env count original preparing preparing-Trouble k n))
              (λ d k h. h.0)
              (λ a d k h. (
                h.0,
                λ i lt. ((h.1 i lt).0, λ l. (h.1 i lt).1 (omega (arith, beyond-eq-add 0 j.paths))),
              ))
              (λ e d k h. h))
            (seq_rule (for_all_rule env.services λ n. raising_rule (stop_service_rule n) prepared)
              (swap_in-Restored j.paths len))
    where
      prepared :
          (e : Signal) (d : Disk T) (j : Journal)
          → Under env count preparing (Prepared env count original count) d j
          → Trouble d j
      prepared e d j h = preparing-Trouble e d j (h.0, λ i lt. inr ((h.1 i lt).0.1, (h.1 i lt).0.0))
