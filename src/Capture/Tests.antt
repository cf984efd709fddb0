-- ===== src/Capture/Tests.antt =====
-- Runs of scripts/backup_snapshot.py on one service that is active, and one that is not.
use resilient_datacenter.Shared.{
  String, Bool, true, false, str_eq, none, some, List, [], ◌∷◌, ◌≡◌, refl,
}
use resilient_datacenter.Shared.Effects.{Out, ok, raised, interrupt}
use resilient_datacenter.Shared.Hoare.{Post}
use resilient_datacenter.Shared.Maintenance.{none_now, for_all, call, file_op, land}
use resilient_datacenter.Shared.Texts.{starts_with}
use resilient_datacenter.Shared.Stored.{absent}
use resilient_datacenter.Capture.State.{
  Event, queried, stop_requested, start_requested, copied, World,
}
use resilient_datacenter.Capture.Capturing.{
  Env, admits, request, query, stop, start, copy, original_states, verify_service, stop_service,
  make_destination, write_metadata, remove_destination, take, discarding, restart, restart_all,
  recover_services, finally, guarded, capture_now, capture,
}
use resilient_datacenter.Capture.Safety.{Captured, capture-Restarted}
use resilient_datacenter.Capture.Restarting.{Halted}

-- The host is whether nginx runs; `obeys`: it stops on request.
abbrev one_service : Bool → Env Bool
one_service obeys = record {
  disturb = λ h. (none_now, h);
  owner = "peer";
  paths = "var/lib/a" ∷ "etc/b" ∷ [];
  services = "nginx.service" ∷ "rdc-x.timer" ∷ [];
  is_active = λ n d h. (ok (if_nginx n h), h);
  stop = λ n d h. (ok tt, if_obeyed obeys h);
  start = λ n d h. (ok tt, true);
  verify_running = λ n d h. (ok tt, h);
  inspect_resources = λ d h. (ok 10, h);
  copy_resource = λ n d h. (ok tt, h);
  component_hashes = λ d h. (ok "hashes", h);
  validate_data = λ d h. (ok tt, h);
  verify_installed = λ d h. (ok tt, h);
  enter = λ d h. (ok tt, h);
  free = λ h. 1000000000;
  now = λ h. "2026-01-01T00:00:00+00:00";
  is_restore_pending = λ h. false;
  pending_upgrade = λ h. absent;
  is_owned = λ h. true;
}
  where
    if_nginx : String → Bool → Bool
    if_nginx n h = elim (str_eq n "nginx.service") [ true ↦ h | false ↦ false ]

    if_obeyed : Bool → Bool → Bool
    if_obeyed true h = false
    if_obeyed false h = h

abbrev fresh : World Bool
fresh = record { disk = record { destination = absent; events = [] }; memory = []; host = true }

abbrev events_of : {A : Type 0} → Out A × World Bool → List Event
events_of r = r.1.disk.events

capture-events :
    events_of (capture (one_service true) none fresh)
    ≡ queried "nginx.service" (some true)
      ∷ start_requested "nginx.service"
      ∷ copied "etc/b"
      ∷ copied "var/lib/a"
      ∷ queried "nginx.service" (some false)
      ∷ stop_requested "nginx.service"
      ∷ queried "rdc-x.timer" (some false)
      ∷ queried "nginx.service" (some true)
      ∷ []
unfolding starts_with capture capture_now guarded take discarding finally recover_services
    restart_all restart start query request stop copy original_states verify_service stop_service
    make_destination write_metadata remove_destination admits for_all call file_op land
capture-events = refl

-- A service that does not stop: the snapshot is refused, and it is started all the same.
capture-refused :
    events_of (capture (one_service false) none fresh)
    ≡ queried "nginx.service" (some true)
      ∷ start_requested "nginx.service"
      ∷ queried "nginx.service" (some true)
      ∷ stop_requested "nginx.service"
      ∷ queried "rdc-x.timer" (some false)
      ∷ queried "nginx.service" (some true)
      ∷ []
unfolding starts_with capture capture_now guarded take discarding finally recover_services
    restart_all restart start query request stop copy original_states verify_service stop_service
    make_destination write_metadata remove_destination admits for_all call file_op land
capture-refused = refl

-- Ctrl-C while the service is started again: it stays stopped, and the snapshot stays too.
abbrev interrupted : Env Bool
interrupted = record (one_service true) { start = λ n d h. (raised interrupt, h) }

capture-interrupted : (capture interrupted none fresh).1.host ≡ false
unfolding starts_with capture capture_now guarded take discarding finally recover_services
    restart_all restart start query request stop copy original_states verify_service stop_service
    make_destination write_metadata remove_destination admits for_all call file_op land
capture-interrupted = refl

capture-Restarted_example : Post Captured Halted (capture (one_service true) none fresh)
capture-Restarted_example = capture-Restarted (one_service true) none true absent
