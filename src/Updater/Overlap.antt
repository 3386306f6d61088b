-- ===== src/Updater/Overlap.antt =====
-- Two requests to handleBulkRunPlaybook of backend/cmd/api/playbooks.go that overlap: the guard reads
-- the groups under way before Start of backend/pkg/updater/bulk.go inserts one.
use ubuntu_auto_update.Base.{
  ℕ, ◌≤◌, ◌<◌, ◌≡◌, refl, ap, ◌∙◌, false, List, [], ◌∷◌, Option, none, some, Text, length, arith,
  text_eq, Result, ok, err, Error, ltb, leb, ◌==◌,
}
use ubuntu_auto_update.Runs.{Runs}
use ubuntu_auto_update.Runs.Laws.{IsValid}
use ubuntu_auto_update.Playbooks.Store.{Playbook}
use ubuntu_auto_update.Updater.Options.{BulkRunOptions}
use ubuntu_auto_update.Updater.Wave.{Job}
use ubuntu_auto_update.Updater.Start.{
  StartWorld, Coordinator, Started, Launch, insert_group, in_flight_count, launch, with_group,
  start_hosts, start,
}
use ubuntu_auto_update.Updater.Start.Effects.{start-Launches}
use ubuntu_auto_update.Updater.Requests.{
  BulkPlaybookRequest, Replied, playbook_run, handle_bulk_run_playbook,
}

-- A launch inserts its group.
in_flight-launch :
    (opts : BulkRunOptions) (g : Text) (c : Coordinator) (x : Result Error (List Job) × Runs)
    (l : Launch)
    → (launch opts g c x).launched ≡ some l
    → (launch opts g c x).after.in_flight ≡ insert_group g c.in_flight
in_flight-launch opts g c (err e, t) l h = cc
in_flight-launch opts g c (ok js, t) l h = refl

in_flight-start :
    (w : StartWorld) (opts : BulkRunOptions) (g : Text) (c : Coordinator) (l : Launch)
    → w.uuid ≡ ok g
    → (start w opts c).launched ≡ some l
    → (start w opts c).after.in_flight ≡ insert_group g c.in_flight
unfolding start
in_flight-start w opts g c l drawn h = by_hosts opts.host_ids h
  where
    by_group :
        (u : Result Error Text)
        → u ≡ ok g
        → (with_group w opts u c).launched ≡ some l
        → (with_group w opts u c).after.in_flight ≡ insert_group g c.in_flight
    by_group (err e) d k = cc
    by_group (ok i) d k =
        in_flight-launch _ i c _ l k
        ∙ ap (λ y. insert_group (elim y [ ok z ↦ z | err e ↦ i ]) c.in_flight) d

    by_hosts :
        (hs : List ℕ)
        → (start_hosts w opts hs c).launched ≡ some l
        → (start_hosts w opts hs c).after.in_flight ≡ insert_group g c.in_flight
    by_hosts [] k = cc
    by_hosts (x ∷ hs) k = by_group w.uuid drawn k

-- A request that passes the guards comes to Start on whatever the coordinator is by then.
handle_bulk_run_playbook-starts :
    (w : StartWorld) (load : ℕ → Result Error Playbook) (r : BulkPlaybookRequest)
    (user : Option Text) (seen c : Coordinator) (p : Playbook)
    → 0 < length r.host_ids
    → length r.host_ids ≤ 200
    → in_flight_count seen ≡ 0
    → load r.playbook_id ≡ ok p
    → (handle_bulk_run_playbook w load r user seen c).started
      ≡ some (start w (playbook_run r user p) c)
unfolding handle_bulk_run_playbook
handle_bulk_run_playbook-starts w load r user seen c p lo hi idle found =
    let a : (length r.host_ids == 0) ≡ false = ground (arith, lo) in
    let b : ltb 200 (length r.host_ids) ≡ false = ground (arith, hi) in
    let d : leb 1 (in_flight_count seen) ≡ false = ground (arith, idle) in rw (a, b, d, found) refl

-- A request for 1 to 200 hosts and a playbook that is found, for which a group id is drawn and every
-- row can be created.
pub record IsReady (w : StartWorld) (load : ℕ → Result Error Playbook) (r : BulkPlaybookRequest)
    (p : Playbook) (g : Text) : Type 0 where
  pub some_host : 0 < length r.host_ids
  pub few_hosts : length r.host_ids ≤ 200
  pub found : load r.playbook_id ≡ ok p
  pub drawn : w.uuid ≡ ok g
  pub healthy : (i : ℕ) → w.create_fault i ≡ none

-- A bulk run of the hosts of `r` that was launched.
pub record IsLaunched (r : BulkPlaybookRequest) (g : Text) (reply : Replied) (s : Started)
    : Type 0 where
  pub started : reply.started ≡ some s
  pub launch : Launch
  pub launched : s.launched ≡ some launch
  pub group : launch.group_id ≡ g
  pub hosts : launch.opts.host_ids ≡ r.host_ids
  pub valid : IsValid s.after.table

handle_bulk_run_playbook-IsLaunched :
    (w : StartWorld) (load : ℕ → Result Error Playbook) (r : BulkPlaybookRequest)
    (user : Option Text) (seen c : Coordinator) (p : Playbook) (g : Text)
    → in_flight_count seen ≡ 0
    → IsValid c.table
    → IsReady w load r p g
    → IsLaunched r g
        (handle_bulk_run_playbook w load r user seen c)
        (start w (playbook_run r user p) c)
unfolding playbook_run
handle_bulk_run_playbook-IsLaunched w load r user seen c p g idle v ready =
    let l =
      start-Launches w (playbook_run r user p) c g ready.some_host ready.drawn ready.healthy v in
    record {
      started =
          handle_bulk_run_playbook-starts w load r user seen c p ready.some_host ready.few_hosts
            idle ready.found;
      launch = _;
      launched = l.launched;
      group = refl;
      hosts = refl;
      valid = l.opened.valid;
    }

two_groups :
    (g h : Text) (gs : List Text)
    → length gs ≡ 0
    → text_eq h g ≡ false
    → length (insert_group h (insert_group g gs)) ≡ 2
unfolding insert_group
two_groups g h [] e differ = rw differ refl
two_groups g h (x ∷ gs) e differ = absurd (omega (arith, e))

-- When no bulk run is under way and two requests for 1 to 200 hosts each, whose playbooks are found,
-- whose group ids differ and whose statements do not fail, both make the check before the first of
-- them is started, and are started one after the other, then both bulk runs are launched over their hosts, and two groups are
-- under way: the guard does not keep bulk runs apart.
pub handle_bulk_run_playbook-Overlaps :
    (w v : StartWorld) (load : ℕ → Result Error Playbook) (r q : BulkPlaybookRequest)
    (user user' : Option Text) (c : Coordinator) (p p' : Playbook) (g h : Text)
    → in_flight_count c ≡ 0
    → IsValid c.table
    → IsReady w load r p g
    → IsReady v load q p' h
    → text_eq h g ≡ false
    → (a : Started) × ((b : Started) × IsLaunched r g (handle_bulk_run_playbook w load r user c c) a
        × IsLaunched q h (handle_bulk_run_playbook v load q user' c a.after) b
        × (in_flight_count b.after ≡ 2))
unfolding in_flight_count
handle_bulk_run_playbook-Overlaps w v load r q user user' c p p' g h idle valid ready ready'
      differ =
    let first = handle_bulk_run_playbook-IsLaunched w load r user c c p g idle valid ready in
    let a = start w (playbook_run r user p) c in
    let second =
      handle_bulk_run_playbook-IsLaunched v load q user' c a.after p' h idle first.valid ready' in
    let b = start v (playbook_run q user' p') a.after in
    let one =
      in_flight-start w (playbook_run r user p) g c first.launch ready.drawn first.launched in
    let two =
      in_flight-start v (playbook_run q user' p') h a.after second.launch ready'.drawn
        second.launched in
    (
      a,
      (
        b,
        first,
        second,
        ap length (two ∙ ap (insert_group h) one) ∙ two_groups g h c.in_flight idle differ,
      ),
    )
