-- ===== src/Hosts/Defs.antt =====
-- The statements on the table hosts (backend/pkg/db/db.go). Hostnames are UNIQUE; a key of ssh_keys
-- goes with its host (ON DELETE CASCADE). Times are in seconds. Each statement takes the fault that
-- the driver reports for it, a violated CHECK constraint included.
use ubuntu_auto_update.Base.{
  ℕ, suc, ◌+◌, ◌*◌, Bool, false, not, ◌&&◌, List, [], ◌∷◌, ◌++◌, Option, none, some, Text, codes,
  text_eq, leb, ◌==◌, if◌then◌else◌, Result, ok, err, Error, no_rows, pg, is_some,
  is_unique_violation,
}

pub record Host : Type 0 where
  pub id : ℕ
  pub hostname : Text
  pub ssh_user : Text
  pub created_at : ℕ
  pub updated_at : ℕ
  pub last_seen : ℕ
  pub update_output : Text
  pub upgrade_output : Text
  pub error : Option Text
  pub tags : List Text
  pub reboot_required : Bool
  pub packages_updated : ℕ
  pub packages_available : ℕ
  pub os_version : Text
  pub kernel_version : Text
  pub agent_version : Text
  pub offline_since : Option ℕ

pub record SshKey : Type 0 where
  pub host_id : ℕ
  pub private_key : Text

pub record HostTable : Type 0 where
  pub rows : List Host
  pub keys : List SshKey
  pub next_id : ℕ

pub record ReportData : Type 0 where
  pub update_output : Text
  pub upgrade_output : Text
  pub error : Text
  pub reboot_required : Bool
  pub packages_updated : ℕ
  pub packages_available : ℕ
  pub os_version : Text
  pub kernel_version : Text
  pub agent_version : Text

unfoldable pub find_host : Text → List Host → Option Host
find_host name [] = none
find_host name (h ∷ hs) =
    let rest = find_host name hs in if text_eq h.hostname name then some h else rest

unfoldable pub host_by_id : ℕ → List Host → Option Host
host_by_id i [] = none
host_by_id i (h ∷ hs) = let rest = host_by_id i hs in if h.id == i then some h else rest

-- UPDATE hosts SET … WHERE id = $1
unfoldable pub change_host : ℕ → (Host → Host) → List Host → List Host
change_host i f [] = []
change_host i f (h ∷ hs) = (if h.id == i then f h else h) ∷ change_host i f hs

-- ON CONFLICT (hostname) DO UPDATE
unfoldable pub change_named : Text → (Host → Host) → List Host → List Host
change_named name f [] = []
change_named name f (h ∷ hs) = (if text_eq h.hostname name then f h else h) ∷ change_named name f hs

unfoldable pub drop_host : ℕ → List Host → List Host
drop_host i [] = []
drop_host i (h ∷ hs) = let rest = drop_host i hs in if h.id == i then rest else h ∷ rest

unfoldable pub drop_key : ℕ → List SshKey → List SshKey
drop_key i [] = []
drop_key i (k ∷ ks) = let rest = drop_key i ks in if k.host_id == i then rest else k ∷ rest

-- sql.NullString: not valid for the empty text
abbrev pub null_text : Text → Option Text
null_text [] = none
null_text (c ∷ s) = some (c ∷ s)

-- The columns that a statement does not name have their defaults.
abbrev pub new_host : ℕ → ℕ → Text → Text → Host
new_host i now hostname ssh_user = record {
  id = i;
  hostname = hostname;
  ssh_user = ssh_user;
  created_at = now;
  updated_at = now;
  last_seen = now;
  update_output = [];
  upgrade_output = [];
  error = none;
  tags = [];
  reboot_required = false;
  packages_updated = 0;
  packages_available = 0;
  os_version = [];
  kernel_version = [];
  agent_version = [];
  offline_since = none;
}

-- The trigger update_hosts_updated_at sets `updated_at` in each UPDATE of hosts.
--
-- The columns of a report; neither `ssh_user` nor `offline_since` is among them.
unfoldable pub report_row : ℕ → ReportData → Host → Host
report_row now r h = record h {
  last_seen = now;
  updated_at = now;
  update_output = r.update_output;
  upgrade_output = r.upgrade_output;
  error = null_text r.error;
  reboot_required = r.reboot_required;
  packages_updated = r.packages_updated;
  packages_available = r.packages_available;
  os_version = r.os_version;
  kernel_version = r.kernel_version;
  agent_version = r.agent_version;
}

unfoldable pub insert_row : Host → HostTable → HostTable
insert_row h t = record t { rows = t.rows ++ h ∷ []; next_id = suc t.next_id }

abbrev pub upserted :
    ℕ → Text → Text → ReportData → Option Host → HostTable → Result Error Host × HostTable
upserted now hostname ssh_user r none t =
    let h = report_row now r (new_host t.next_id now hostname ssh_user) in (ok h, insert_row h t)
upserted now hostname ssh_user r (some h) t =
    (ok (report_row now r h), record t { rows = change_named hostname (report_row now r) t.rows })

unfoldable pub upsert_host :
    Option Error → ℕ → Text → Text → ReportData → HostTable → Result Error Host × HostTable
upsert_host (some e) now hostname ssh_user r t = (err e, t)
upsert_host none now hostname ssh_user r t =
    upserted now hostname ssh_user r (find_host hostname t.rows) t

pub data HostError : Type 0 where
  duplicate_hostname : HostError
  host_other : Error → HostError

unfoldable pub map_insert_host_error : Error → HostError
map_insert_host_error e = if is_unique_violation e then duplicate_hostname else host_other e

abbrev pub duplicate_host : Error
duplicate_host = pg (codes "23505") (codes "duplicate key value violates unique constraint")

abbrev pub inserted_host :
    ℕ → Text → Text → Option Host → HostTable → Result HostError Host × HostTable
inserted_host now hostname ssh_user none t =
    let h = new_host t.next_id now hostname ssh_user in (ok h, insert_row h t)
inserted_host now hostname ssh_user (some h) t = (err (map_insert_host_error duplicate_host), t)

unfoldable pub create_host :
    Option Error → ℕ → Text → Text → HostTable → Result HostError Host × HostTable
create_host (some e) now hostname ssh_user t = (err (map_insert_host_error e), t)
create_host none now hostname ssh_user t =
    inserted_host now hostname ssh_user (find_host hostname t.rows) t

-- An UPDATE … WHERE id = $1 RETURNING through CollectExactlyOneRow.
abbrev pub updated_host :
    ℕ → (Host → Host) → Option Host → HostTable → Result Error Host × HostTable
updated_host i f none t = (err no_rows, t)
updated_host i f (some h) t = (ok (f h), record t { rows = change_host i f t.rows })

unfoldable pub update_host_ssh_user :
    Option Error → ℕ → ℕ → Text → HostTable → Result Error Host × HostTable
update_host_ssh_user (some e) now i ssh_user t = (err e, t)
update_host_ssh_user none now i ssh_user t =
    updated_host i (λ h. record h { ssh_user = ssh_user; updated_at = now }) (host_by_id i t.rows) t

unfoldable pub update_host_tags :
    Option Error → ℕ → ℕ → List Text → HostTable → Result Error Host × HostTable
update_host_tags (some e) now i tags t = (err e, t)
update_host_tags none now i tags t =
    updated_host i (λ h. record h { tags = tags; updated_at = now }) (host_by_id i t.rows) t

-- The rows affected: `id` is a primary key.
unfoldable pub delete_host : Option Error → ℕ → HostTable → Result Error ℕ × HostTable
delete_host (some e) i t = (err e, t)
delete_host none i t = (
  ok (if is_some (host_by_id i t.rows) then 1 else 0),
  record t { rows = drop_host i t.rows; keys = drop_key i t.keys },
)

unfoldable pub get_host : Option Error → ℕ → HostTable → Result Error Host
get_host (some e) i t = err e
get_host none i t = elim (host_by_id i t.rows) [ none ↦ err no_rows | some h ↦ ok h ]

-- last_seen >= NOW() - make_interval(mins => $1)
abbrev pub is_recent : ℕ → ℕ → Host → Bool
is_recent now minutes h = leb now (h.last_seen + minutes * 60)

-- The first statement of the sweep, on a row.
unfoldable pub clear_row : ℕ → ℕ → Host → Host
clear_row now minutes h =
    if is_some h.offline_since && is_recent now minutes h
    then record h { offline_since = none; updated_at = now }
    else h

-- The WHERE clause of its second statement.
unfoldable pub goes_offline : ℕ → ℕ → Host → Bool
goes_offline now minutes h = not (is_some h.offline_since) && not (is_recent now minutes h)

abbrev pub flag_row : ℕ → Host → Host
flag_row now h = record h { offline_since = some now; updated_at = now }

unfoldable pub clear_rows : ℕ → ℕ → List Host → List Host
clear_rows now minutes [] = []
clear_rows now minutes (h ∷ hs) = clear_row now minutes h ∷ clear_rows now minutes hs

unfoldable pub flag_rows : ℕ → ℕ → List Host → List Host
flag_rows now minutes [] = []
flag_rows now minutes (h ∷ hs) =
    (if goes_offline now minutes h then flag_row now h else h) ∷ flag_rows now minutes hs

-- RETURNING: the rows flagged, as they are then
unfoldable pub flagged_rows : ℕ → ℕ → List Host → List Host
flagged_rows now minutes [] = []
flagged_rows now minutes (h ∷ hs) =
    let rest = flagged_rows now minutes hs in
    if goes_offline now minutes h then flag_row now h ∷ rest else rest

abbrev pub flagged : Option Error → ℕ → ℕ → HostTable → Result Error (List Host) × HostTable
flagged (some e) now minutes t = (err e, t)
flagged none now minutes t =
    (ok (flagged_rows now minutes t.rows), record t { rows = flag_rows now minutes t.rows })

unfoldable pub sweep_offline_hosts :
    Option Error → Option Error → ℕ → ℕ → HostTable → Result Error (List Host) × HostTable
sweep_offline_hosts (some e) flag_fault now minutes t = (err e, t)
sweep_offline_hosts none flag_fault now minutes t =
    flagged flag_fault now minutes (record t { rows = clear_rows now minutes t.rows })
