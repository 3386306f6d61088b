-- ===== src/Hosts/Spec.antt =====
-- What reports, creations and sweeps of the table hosts promise, as a function of the hostname, and
-- the view of a table that the promise is about.
use ubuntu_auto_update.Base.{
  ℕ, ◌+◌, ◌*◌, Bool, not, ◌&&◌, List, [], ◌∷◌, Option, none, some, Text, text_eq, leb,
  if◌then◌else◌, Error, is_some,
}
use ubuntu_auto_update.Hosts.Defs.{
  Host, HostTable, ReportData, find_host, null_text, upsert_host, create_host, sweep_offline_hosts,
}

-- What the operator sees of a host.
pub record Status : Type 0 where
  pub ssh_user : Text
  pub created_at : ℕ
  pub last_seen : ℕ
  pub error : Option Text
  pub offline_since : Option ℕ

-- One statement on the table, with the driver's faults.
pub data HostOp : Type 0 where
  reported : Option Error → ℕ → Text → Text → ReportData → HostOp
  created : Option Error → ℕ → Text → Text → HostOp
  swept : Option Error → Option Error → ℕ → ℕ → HostOp

unfoldable pub apply_op : HostOp → HostTable → HostTable
apply_op (reported fault now name user r) t = (upsert_host fault now name user r t).1
apply_op (created fault now name user) t = (create_host fault now name user t).1
apply_op (swept clear_fault flag_fault now minutes) t =
    (sweep_offline_hosts clear_fault flag_fault now minutes t).1

unfoldable pub run_ops : List HostOp → HostTable → HostTable
run_ops [] t = t
run_ops (op ∷ ops) t = run_ops ops (apply_op op t)

abbrev pub status : Host → Status
status h = record {
  ssh_user = h.ssh_user;
  created_at = h.created_at;
  last_seen = h.last_seen;
  error = h.error;
  offline_since = h.offline_since;
}

abbrev pub status_of : Option Host → Option Status
status_of none = none
status_of (some h) = some (status h)

unfoldable pub view : HostTable → Text → Option Status
view t name = status_of (find_host name t.rows)

-- The specification, on one hostname.
abbrev pub fresh : ℕ → Text → Status
fresh now user = record {
  ssh_user = user;
  created_at = now;
  last_seen = now;
  error = none;
  offline_since = none;
}

abbrev pub seen : ℕ → Text → ReportData → Option Status → Option Status
seen now user r none = some (record (fresh now user) { error = null_text r.error })
seen now user r (some s) = some (record s { last_seen = now; error = null_text r.error })

abbrev pub made : ℕ → Text → Option Status → Option Status
made now user none = some (fresh now user)
made now user (some s) = some s

abbrev pub is_alive : ℕ → ℕ → Status → Bool
is_alive now minutes s = leb now (s.last_seen + minutes * 60)

-- A host that reported within the threshold is online; any other is offline since it was flagged.
unfoldable pub cleared_status : ℕ → ℕ → Status → Status
cleared_status now minutes s =
    if is_some s.offline_since && is_alive now minutes s
    then record s { offline_since = none }
    else s

unfoldable pub flagged_status : ℕ → ℕ → Status → Status
flagged_status now minutes s =
    if not (is_some s.offline_since) && not (is_alive now minutes s)
    then record s { offline_since = some now }
    else s

abbrev pub on_status : (Status → Status) → Option Status → Option Status
on_status f none = none
on_status f (some s) = some (f s)

unfoldable pub spec_op : HostOp → Text → Option Status → Option Status
spec_op (reported (some e) now name user r) n s = s
spec_op (reported none now name user r) n s = if text_eq name n then seen now user r s else s
spec_op (created (some e) now name user) n s = s
spec_op (created none now name user) n s = if text_eq name n then made now user s else s
spec_op (swept (some e) flag_fault now minutes) n s = s
spec_op (swept none (some e) now minutes) n s = on_status (cleared_status now minutes) s
spec_op (swept none none now minutes) n s =
    on_status (flagged_status now minutes) (on_status (cleared_status now minutes) s)

unfoldable pub spec_ops : List HostOp → Text → Option Status → Option Status
spec_ops [] n s = s
spec_ops (op ∷ ops) n s = spec_ops ops n (spec_op op n s)
