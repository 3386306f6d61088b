-- ===== src/Updater/Start/Defs.antt =====
-- Start, InFlightCount, and what the deferred function of Coordinator.run does.
use ubuntu_auto_update.Base.{
  ℕ, suc, Bool, true, false, List, [], ◌∷◌, ◌++◌, map, Option, none, some, Text, codes, text_eq,
  itoa, length, if◌then◌else◌, Result, ok, err, Error, message, wrapped, Fault,
}
use ubuntu_auto_update.Runs.{RunKind, update, UpdateRun, Runs, create_run_full}
use ubuntu_auto_update.Updater.Options.{BulkRunOptions, clamp_concurrency}
use ubuntu_auto_update.Updater.Wave.{Job}

-- The rows and the set of the active groups.
pub record Coordinator : Type 0 where
  pub table : Runs
  pub in_flight : List Text

-- newUUID, the fault of the k-th CreateRunFull, and the clock.
pub record StartWorld : Type 0 where
  pub uuid : Result Error Text
  pub create_fault : ℕ → Option Fault
  pub now : ℕ

pub record BulkResult : Type 0 where
  pub group_id : Text
  pub run_ids : List ℕ
  pub host_ids : List ℕ

-- The arguments of `go c.run(...)`.
pub record Launch : Type 0 where
  pub opts : BulkRunOptions
  pub group_id : Text
  pub jobs : List Job
  pub conc : ℕ

pub record Started : Type 0 where
  pub result : Result Error BulkResult
  pub after : Coordinator
  pub launched : Option Launch

unfoldable pub create_text : ℕ → Text
create_text host_id = codes "create run for host " ++ (itoa host_id ++ codes ": ")

abbrev pub add_job : Job → Result Error (List Job) × Runs → Result Error (List Job) × Runs
add_job j (err e, t) = (err e, t)
add_job j (ok js, t) = (ok (j ∷ js), t)

abbrev pub opened :
    ℕ
    → Result Error UpdateRun × Runs
    → (Runs → Result Error (List Job) × Runs)
    → Result Error (List Job) × Runs
opened host_id (err e, t) rest = (err (wrapped (create_text host_id) e), t)
opened host_id (ok run, t) rest = add_job (record { host_id = host_id; run_id = run.id }) (rest t)

-- The loop over the hosts, from the k-th on.
unfoldable pub create_rows :
    StartWorld
    → Text
    → RunKind
    → Text
    → Option ℕ
    → ℕ
    → List ℕ
    → Runs
    → Result Error (List Job) × Runs
create_rows w triggered_by kind group_id playbook_id k [] t = (ok [], t)
create_rows w triggered_by kind group_id playbook_id k (h ∷ hs) t =
    opened h (create_run_full (w.create_fault k) w.now h triggered_by kind group_id playbook_id t)
      (λ u. create_rows w triggered_by kind group_id playbook_id (suc k) hs u)

abbrev pub kind_or_update : Option RunKind → RunKind
kind_or_update none = update
kind_or_update (some kind) = kind

abbrev pub is_member : Text → List Text → Bool
is_member g [] = false
is_member g (x ∷ xs) = if text_eq g x then true else is_member g xs

-- c.inFlightGroups[g] = struct{}{}
unfoldable pub insert_group : Text → List Text → List Text
insert_group g gs = if is_member g gs then gs else g ∷ gs

-- delete(c.inFlightGroups, g)
unfoldable pub delete_group : Text → List Text → List Text
delete_group g [] = []
delete_group g (x ∷ xs) = if text_eq g x then delete_group g xs else x ∷ delete_group g xs

unfoldable pub in_flight_count : Coordinator → ℕ
in_flight_count c = length c.in_flight

abbrev pub refused : Error → Coordinator → Started
refused e c = record { result = err e; after = c; launched = none }

abbrev pub launch : BulkRunOptions → Text → Coordinator → Result Error (List Job) × Runs → Started
launch opts g c (err e, t) = refused e (record c { table = t })
launch opts g c (ok jobs, t) = record {
  result =
      ok (record { group_id = g; run_ids = map (λ j. j.run_id) jobs; host_ids = opts.host_ids });
  after = record { table = t; in_flight = insert_group g c.in_flight };
  launched = some (record {
    opts = opts;
    group_id = g;
    jobs = jobs;
    conc = clamp_concurrency opts.concurrency;
  });
}

abbrev pub with_group : StartWorld → BulkRunOptions → Result Error Text → Coordinator → Started
with_group w opts (err e) c = refused (wrapped (codes "generate group id: ") e) c
with_group w opts (ok g) c =
    let kind = kind_or_update opts.kind in
    launch (record opts { kind = some kind }) g c
      (create_rows w opts.triggered_by kind g opts.playbook_id 0 opts.host_ids c.table)

abbrev pub start_hosts : StartWorld → BulkRunOptions → List ℕ → Coordinator → Started
start_hosts w opts [] c = refused (message (codes "no hosts selected")) c
start_hosts w opts (h ∷ hs) c = with_group w opts w.uuid c

unfoldable pub start : StartWorld → BulkRunOptions → Coordinator → Started
start w opts c = start_hosts w opts opts.host_ids c
