-- ===== src/Rotation/Activation.antt =====
-- activate of scripts/certificate_lifecycle.py.
use resilient_datacenter.Shared.{
  String, Bool, true, false, not, ◌&&◌, ◌||◌, str_eq, Option, none, some, if◌then◌else◌,
}
use resilient_datacenter.Shared.Effects.{
  failure, interrupt, crash, Out, ok, raised, Done, pure, raise, refuse_if, ◌>>=◌, ◌>>◌,
}
use resilient_datacenter.Shared.Maintenance.{file_op, for_all}
use resilient_datacenter.Rotation.State.{
  Info, Generation, Action, Env, lookup, written, removed, names, service_of, generation,
  active_name, previous_name, point,
}

-- How activate ends that is not stopped: it returns, or it raises ActivationError(recovered).
pub data Outcome : Type 0 where
  staged active : Info → Outcome
  activation_error : Bool → Outcome

pub record Request : Type 0 where
  pub hostname : String
  pub role : String
  pub certificate : String
  pub key : String
  pub is_initial : Bool

abbrev pub demand : {H A : Type 0} → Option A → Action H A
demand none = raise failure
demand (some a) = pure a

abbrev pub is_text : Option String → String → Bool
is_text none s = false
is_text (some r) s = str_eq r s

abbrev pub names_target : Option String → String → Bool
names_target none t = false
names_target (some p) t = str_eq t p

abbrev pub metadata_of : Option Generation → Option Info
metadata_of none = none
metadata_of (some g) = g.metadata

abbrev pub verified_by : {A : Type 0} → Out A → String → Option String
verified_by (ok a) fp = some fp
verified_by (raised e) fp = none

abbrev pub is_no_directory : Option Generation → Bool
is_no_directory none = true
is_no_directory (some g) = g.is_linked

abbrev pub is_first : Request → Option String → Bool
is_first q none = q.is_initial
is_first q (some p) = false

abbrev pub is_missing : Request → Option String → Bool
is_missing q none = not q.is_initial
is_missing q (some p) = false

abbrev pub empty_directory : Generation
empty_directory = record {
  is_linked = false;
  has_linked_files = false;
  metadata = none;
  certificate = none;
  private_key = none;
  host_certificate = none;
  host_key = none;
}

module _ {H : Type 0} (env : Env H) where
  -- runtime.restart(service)
  unfoldable pub restart : String → Action H Done
  restart service w =
      let (r, h) = env.restart service w.disk w.host in
      (r, record w { disk = record w.disk { verified = none }; host = h })

  -- runtime.verify(hostname, fingerprint)
  unfoldable pub verify : String → String → Action H Done
  verify hostname fp w =
      let (r, h) = env.verify hostname fp w.disk w.host in
      (r, record w { disk = record w.disk { verified = verified_by r fp }; host = h })

  unfoldable pub restart_and_verify : String → String → String → Action H Done
  restart_and_verify service hostname fp = restart service >> verify hostname fp

  unfoldable pub validate : Request → Action H Info
  validate q w =
      let (r, h) = env.validator q.certificate q.key q.hostname w.host in (r, record w { host = h })

  -- `except (OSError,ValueError)` around the first verification of an unchanged certificate
  unfoldable pub verify_again : String → String → String → Out Done → Action H Done
  verify_again service hostname fp (ok u) = pure tt
  verify_again service hostname fp (raised failure) = restart_and_verify service hostname fp
  verify_again service hostname fp (raised interrupt) = raise interrupt
  verify_again service hostname fp (raised crash) = raise crash

  unfoldable pub unchanged : Request → String → Info → Action H Outcome
  unchanged q service info = if q.is_initial then pure (staged info) else (λ w.
      let (r, w') = verify q.hostname info.fingerprint w in
      (verify_again service q.hostname info.fingerprint r >> pure (active info)) w')

  unfoldable pub write_generation : String → Generation → Action H Done
  write_generation target g =
      file_op env.disturb (λ d. some (record d { generations = written target g d.generations }))

  -- The files are written in this order.
  unfoldable pub create_generation : Request → String → Info → Action H Done
  create_generation q target info = do
    write_generation target empty_directory
    write_generation target (record empty_directory { metadata = some info })
    write_generation target
        (record empty_directory { metadata = some info; certificate = some q.certificate })
    write_generation target (record empty_directory {
      metadata = some info;
      certificate = some q.certificate;
      private_key = some q.key;
    })
    write_generation target (record empty_directory {
      metadata = some info;
      certificate = some q.certificate;
      private_key = some q.key;
      host_certificate = some q.certificate;
    })
    write_generation target (record empty_directory {
      metadata = some info;
      certificate = some q.certificate;
      private_key = some q.key;
      host_certificate = some q.certificate;
      host_key = some q.key;
    })

  -- A generation that is there already must hold the certificate and the key.
  unfoldable pub stage_generation : Request → String → Info → Option Generation → Action H Done
  stage_generation q target info none = create_generation q target info
  stage_generation q target info (some g) = do
    refuse_if (g.is_linked || g.has_linked_files)
    refuse_if (not (is_text g.certificate q.certificate && is_text g.private_key q.key))

  unfoldable pub old_info : Option String → Action H (Option Info)
  old_info none w = (ok none, w)
  old_info (some p) w =
      (demand (metadata_of (lookup p w.disk.generations)) >>= λ i. pure (some i)) w

  unfoldable pub recovered_after : Out Done → Action H Outcome
  recovered_after (ok u) = pure (activation_error true)
  recovered_after (raised failure) = pure (activation_error false)
  recovered_after (raised interrupt) = raise interrupt
  recovered_after (raised crash) = raise crash

  unfoldable pub verify_old : String → String → String → Action H Outcome
  verify_old service hostname fp w =
      let (r, w') = restart_and_verify service hostname fp w in recovered_after r w'

  unfoldable pub fall_back : String → String → Option String → Option Info → Action H Outcome
  fall_back service hostname none old = pure (activation_error false)
  fall_back service hostname (some p) none = raise failure
  fall_back service hostname (some p) (some old) = do
    point env active_name p
    verify_old service hostname old.fingerprint

  -- shutil.rmtree, which may be interrupted between the files
  unfoldable pub remove_generation : String → Action H Done
  remove_generation n w =
      (demand (lookup n w.disk.generations) >>= λ g. do
        write_generation n (env.remains g)
        file_op env.disturb (λ d. some (record d { generations = removed n d.generations })))
        w

  unfoldable pub clean_generation : String → Option String → String → Action H Done
  clean_generation target previous n w =
      (if str_eq n target
            || names_target previous n
            || is_no_directory (lookup n w.disk.generations)
          then pure tt
          else remove_generation n)
        w

  unfoldable pub point_previous : Option String → Action H Done
  point_previous none = pure tt
  point_previous (some p) = point env previous_name p

  unfoldable pub complete : String → Option String → Info → Action H Outcome
  complete target previous info = do
    point_previous previous
    (λ w. for_all (names w.disk.generations) (clean_generation target previous) w)
    pure (active info)

  -- `except (OSError,ValueError,subprocess.SubprocessError)` after the new certificate is in place
  unfoldable pub settle :
      Request → String → String → Option String → Info → Option Info → Out Done → Action H Outcome
  settle q service target previous info old (ok u) = complete target previous info
  settle q service target previous info old (raised failure) =
      fall_back service q.hostname previous old
  settle q service target previous info old (raised interrupt) = raise interrupt
  settle q service target previous info old (raised crash) = raise crash

  unfoldable pub switch :
      Request → String → String → Option String → Info → Option Info → Action H Outcome
  switch q service target previous info old w =
      let (r, w') = restart_and_verify service q.hostname info.fingerprint w in
      settle q service target previous info old r w'

  unfoldable pub change : Request → String → String → Option String → Info → Action H Outcome
  change q service target previous info = do
    (λ w. refuse_if w.disk.is_linked w)
    (λ w. stage_generation q target info (lookup target w.disk.generations) w)
    old ← old_info previous
    point env active_name target
    if is_first q previous then pure (staged info) else switch q service target previous info old

  unfoldable pub proceed_with : Request → String → Option String → Info → Action H Outcome
  proceed_with q service previous info =
      if names_target previous (env.digest q.certificate q.key)
      then unchanged q service info
      else change q service (env.digest q.certificate q.key) previous info

  unfoldable pub activate : Request → Action H Outcome
  activate q = do
    service ← demand (service_of q.role)
    previous ← (λ w. demand (generation w.disk.generations w.disk.active) w)
    refuse_if (is_missing q previous)
    info ← validate q
    proceed_with q service previous info
