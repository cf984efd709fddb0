-- ===== src/Shared/Maintenance.antt =====
-- A maintenance transaction: durable state on the disk, the journal in memory, and the host. The
-- steps of its actions, and the loops over names that Python writes with `for`.
use resilient_datacenter.Shared.Effects.{
  Signal, failure, interrupt, crash, Out, ok, raised, Done, M, pure, raise, ◌>>◌,
}
use Prim.Native.Nat.{ℕ, suc}
use Prim.Native.String.{String}
use mathlib.Core.Option.{Option, none, some}
use mathlib.Core.List.{List, [], ◌∷◌}

-- `memory` is the journal that the functions of the transaction share; `host` is all that lies
-- outside: services, firewall, clock, and the faults of the file system.
pub record World (D J H : Type 0) : Type 0 where
  pub disk : D
  pub memory : J
  pub host : H

abbrev pub Action : Type 0 → Type 0 → Type 0 → Type 0 → Type 0
Action D J H A = M (World D J H) A

-- A call of the runtime: it may read the disk, it changes the host, and it may raise.
abbrev pub Call : Type 0 → Type 0 → Type 0 → Type 0
Call D H A = D → H → Out A × H

-- A call of the file system succeeds, or stops before or after its effect.
pub data Fault : Type 0 where
  none_now : Fault
  before after : Signal → Fault

module _ {D J H : Type 0} where
  unfoldable pub call : {A : Type 0} → Call D H A → Action D J H A
  call f w = let (r, h) = f w.disk w.host in (r, record w { host = h })

  -- `none`: the call itself raises OSError, as a rename of a missing file does.
  unfoldable pub land : Fault → Option D → World D J H → Out Done × World D J H
  land f none w = (raised failure, w)
  land none_now (some d) w = (ok tt, record w { disk = d })
  land (before e) (some d) w = (raised e, w)
  land (after e) (some d) w = (raised e, record w { disk = d })

  -- One operation of the file system, under the faults that the host chooses.
  unfoldable pub file_op : (H → Fault × H) → (D → Option D) → Action D J H Done
  unfolding land
  file_op disturb f w = let (x, h) = disturb w.host in land x (f w.disk) (record w { host = h })

  unfoldable pub memory : Action D J H J
  memory w = (ok w.memory, w)

  -- `for index,name in enumerate(names): body`, from an index on
  unfoldable pub for_each : ℕ → List String → (ℕ → String → Action D J H Done) → Action D J H Done
  for_each i [] body = pure tt
  for_each i (n ∷ ns) body = body i n >> for_each (suc i) ns body

  -- `for index,name in reversed(list(enumerate(names))): body`
  unfoldable pub for_each_reversed :
      ℕ → List String → (ℕ → String → Action D J H Done) → Action D J H Done
  for_each_reversed i [] body = pure tt
  for_each_reversed i (n ∷ ns) body = for_each_reversed (suc i) ns body >> body i n

  -- `for name in names: body`, and over `reversed(names)`
  unfoldable pub for_all : {A : Type 0} → List A → (A → Action D J H Done) → Action D J H Done
  for_all [] body = pure tt
  for_all (n ∷ ns) body = body n >> for_all ns body

  unfoldable pub for_all_reversed :
      {A : Type 0} → List A → (A → Action D J H Done) → Action D J H Done
  for_all_reversed [] body = pure tt
  for_all_reversed (n ∷ ns) body = for_all_reversed ns body >> body n

  -- The end of `try: m` with `except BaseException: cleanup; raise`
  unfoldable pub cleaned_up : {A : Type 0} → Out A → Action D J H Done → Action D J H A
  cleaned_up (ok a) cleanup w = (ok a, w)
  cleaned_up (raised crash) cleanup w = (raised crash, w)
  cleaned_up (raised failure) cleanup w = (cleanup >> raise failure) w
  cleaned_up (raised interrupt) cleanup w = (cleanup >> raise interrupt) w
