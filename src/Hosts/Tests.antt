-- ===== src/Hosts/Tests.antt =====
-- Concrete tables: the theorems of Hosts at work.
use ubuntu_auto_update.Base.{
  ℕ, ◌≤◌, ◌≡◌, refl, ◌⊎◌, true, false, List, [], ◌∷◌, ◌++◌, none, some, Text, codes, arith, Result,
  ok, err, Error, message, trim_space, text_eq,
}
use ubuntu_auto_update.Hosts.Defs.{
  Host, HostTable, ReportData, new_host, report_row, find_host, host_by_id, upsert_host,
  sweep_offline_hosts, flag_rows, clear_rows, clear_row, flagged_rows, goes_offline, create_host,
  insert_row, change_named,
}
use ubuntu_auto_update.Hosts.Keys.{KeyWorld, get_ssh_key, set_ssh_key_and_user}
use ubuntu_auto_update.Hosts.Spec.{
  HostOp, reported, created, swept, view, run_ops, spec_ops, apply_op,
}
use ubuntu_auto_update.Hosts.Refine.{run_ops_lem}
use ubuntu_auto_update.Hosts.Offline.{announcements, count_named, announcements-once}
use ubuntu_auto_update.Hosts.Atomic.{set_ssh_key_and_user-get}
use ubuntu_auto_update.Hosts.Requests.{
  HostReport, Response, registered, CreateRequest, CreateWorld, handle_create_host,
  handle_add_ssh_key, refused,
}
use ubuntu_auto_update.Hosts.Created.{handle_create_host-IsAtomic}

abbrev web : Host
web = new_host 1 100 (codes "web") (codes "deploy")

abbrev fleet : HostTable
fleet = record { rows = web ∷ []; keys = []; next_id = 2 }

abbrev results : ReportData
results = record {
  update_output = codes "ok";
  upgrade_output = [];
  error = codes "E: lock";
  reboot_required = true;
  packages_updated = 3;
  packages_available = 4;
  os_version = codes "24.04";
  kernel_version = codes "6.8";
  agent_version = codes "1.0";
}

abbrev ops : List HostOp
ops =
    reported none 200 (codes "web") (codes "root") results
    ∷ created none 300 (codes "db") (codes "root")
    ∷ swept none none 4000 10
    ∷ reported (some (message (codes "down"))) 5000 (codes "web") (codes "root") results
    ∷ []

-- The SSH user stays, and the sweep marks the host.
ops_test :
    view (run_ops ops fleet) (codes "web")
    ≡ some (record {
      ssh_user = codes "deploy";
      created_at = 100;
      last_seen = 200;
      error = some (codes "E: lock");
      offline_since = some 4000;
    })
unfolding view run_ops find_host apply_op upsert_host sweep_offline_hosts flag_rows clear_rows
    create_host text_eq change_named report_row insert_row goes_offline clear_row
ops_test = refl

run_ops_lem_example :
    view (run_ops ops fleet) (codes "web") ≡ spec_ops ops (codes "web") (view fleet (codes "web"))
run_ops_lem_example = run_ops_lem ops fleet (codes "web")

abbrev times : List ℕ
times = 4000 ∷ 4060 ∷ 9000 ∷ []

announced_test : announcements (codes "web") 10 times fleet ≡ 1
unfolding announcements sweep_offline_hosts count_named flagged_rows clear_rows goes_offline
    clear_row text_eq flag_rows
announced_test = refl

announcements-once_example :
    announcements (codes "web") 10 times fleet ≤ count_named (codes "web") fleet.rows
announcements-once_example =
    announcements-once (codes "web") 10 times fleet (omega arith, (omega arith, (omega arith, tt)))

-- A cipher that puts a byte in front, and its inverse.
abbrev encrypt : Text → Result Error Text
encrypt key = ok (0 ∷ key)

abbrev decrypt : Text → Result Error Text
decrypt [] = err (message (codes "ciphertext too short"))
decrypt (c ∷ key) = ok key

decrypt-encrypt : (c : Text) → encrypt (codes "pem") ≡ ok c → decrypt c ≡ ok (codes "pem")
decrypt-encrypt [] h = refl_of h
  where
    refl_of : encrypt (codes "pem") ≡ ok [] → decrypt [] ≡ ok (codes "pem")
    refl_of h = cc
decrypt-encrypt (x ∷ c) h = cc

abbrev healthy : KeyWorld
healthy = record {
  begin_fault = none;
  put_fault = none;
  user_fault = none;
  commit_fault = none;
  now = 9;
}

set_ssh_key_and_user-get_example :
    ((e : Error) × (set_ssh_key_and_user encrypt healthy 1 (codes "admin") (codes "pem") fleet
        ≡ (some e, fleet)))
    ⊎ (((set_ssh_key_and_user encrypt healthy 1 (codes "admin") (codes "pem") fleet).0 ≡ none)
        × (get_ssh_key decrypt none 1
              (set_ssh_key_and_user encrypt healthy 1 (codes "admin") (codes "pem") fleet).1
            ≡ ok (record { host_id = 1; private_key = codes "pem" }))
        × (h : Host) × (host_by_id 1
              (set_ssh_key_and_user encrypt healthy 1 (codes "admin") (codes "pem") fleet).1.rows
            ≡ some h)
        × (h.ssh_user ≡ codes "admin"))
set_ssh_key_and_user-get_example =
    set_ssh_key_and_user-get encrypt decrypt healthy 1 (codes "admin") (codes "pem") fleet
      decrypt-encrypt

-- The key of a host that is not there: the foreign key fails before the row is missed.
missing_test :
    (handle_add_ssh_key
      (λ k. true)
      encrypt
      healthy
      7
      (some (record { ssh_user = codes "root"; private_key = codes "pem" }))
      fleet).response
    ≡ refused 500 (codes "Failed to save SSH key")
unfolding handle_add_ssh_key trim_space set_ssh_key_and_user host_by_id
missing_test = refl

abbrev report : HostReport
report = record {
  hostname = codes " db ";
  agent_version = codes "1.0";
  packages_updated = 0;
  packages_available = 0;
  reboot_required = false;
  error_message = none;
  apt_output = [];
  os_version = [];
  kernel_version = [];
}

named_test : trim_space (codes " db ") ≡ codes "db"
unfolding trim_space
named_test = refl

abbrev unreachable : CreateWorld
unreachable = record {
  now = 500;
  insert_fault = none;
  bootstrap = λ host user password. err (message (codes "no route to host"));
  encrypt = encrypt;
  key_fault = none;
  rollback_fault = none;
}

abbrev creation : CreateRequest
creation = record { hostname = codes "db"; ssh_user = []; password = codes "pw" }

handle_create_host-IsAtomic_example :
    (((handle_create_host unreachable (some creation) fleet).table.rows ≡ fleet.rows)
      × ((handle_create_host unreachable (some creation) fleet).table.keys ≡ fleet.keys)
      × ((handle_create_host unreachable (some creation) fleet).dispatched ≡ []))
    ⊎ ((h : Host) × ((handle_create_host unreachable (some creation) fleet).response
          ≡ Response.created h)
        × ((handle_create_host unreachable (some creation) fleet).dispatched ≡ registered h)
        × ((handle_create_host unreachable (some creation) fleet).table.rows ≡ fleet.rows ++ h ∷ [])
        × (h.hostname ≡ trim_space (codes "db")))
handle_create_host-IsAtomic_example =
    handle_create_host-IsAtomic unreachable creation fleet refl ((omega arith, tt), tt)
