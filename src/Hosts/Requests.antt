-- ===== src/Hosts/Requests.antt =====
-- The handlers of backend/cmd/api/main.go on the table hosts, after the id of the path is read. A
-- body is `none` when it does not decode. The webhooks dispatched are part of the outcome.
use ubuntu_auto_update.Base.{
  ℕ, zero, suc, Bool, not, ◌||◌, List, [], ◌∷◌, ◌++◌, Option, none, some, Text, codes, text_eq,
  is_empty, trim_space, byte_length, ltb, ◌==◌, if◌then◌else◌, Result, ok, err, Error, error_text,
  is_no_rows,
}
use ubuntu_auto_update.Hosts.Defs.{
  Host, HostTable, ReportData, HostError, duplicate_hostname, host_other, upsert_host, create_host,
  update_host_ssh_user, update_host_tags, delete_host, get_host,
}
use ubuntu_auto_update.Hosts.Keys.{KeyWorld, add_ssh_key, set_ssh_key_and_user}

-- The fields that the handler reads.
pub record HostReport : Type 0 where
  pub hostname : Text
  pub agent_version : Text
  pub packages_updated : ℕ
  pub packages_available : ℕ
  pub reboot_required : Bool
  pub error_message : Option Text
  pub apt_output : Text
  pub os_version : Text
  pub kernel_version : Text

pub data Response : Type 0 where
  -- 202 and 201 without a body, 204
  accepted stored deleted : Response
  -- 201 and 200 with the host
  created updated : Host → Response
  refused : ℕ → Text → Response

-- dispatchWebhooks("host_registered", …)
pub record Registered : Type 0 where
  pub host_id : ℕ
  pub hostname : Text

pub record Outcome : Type 0 where
  pub response : Response
  pub dispatched : List Registered
  pub table : HostTable

abbrev pub refuse : ℕ → Text → HostTable → Outcome
refuse status text t = record { response = refused status text; dispatched = []; table = t }

abbrev pub registered : Host → List Registered
registered h = record { host_id = h.id; hostname = h.hostname } ∷ []

abbrev pub text_or_empty : Option Text → Text
text_or_empty none = []
text_or_empty (some s) = s

unfoldable pub report_data : HostReport → ReportData
report_data r = record {
  update_output = r.apt_output;
  upgrade_output = [];
  error = text_or_empty r.error_message;
  reboot_required = r.reboot_required;
  packages_updated = r.packages_updated;
  packages_available = r.packages_available;
  os_version = r.os_version;
  kernel_version = r.kernel_version;
  agent_version = r.agent_version;
}

abbrev pub after_report : Result Error Host × HostTable → Outcome
after_report (err e, t) = refuse 500 (codes "Failed to process report") t
after_report (ok h, t) = record {
  response = accepted;
  dispatched = if h.last_seen == h.created_at then registered h else [];
  table = t;
}

unfoldable pub handle_report : Option Error → ℕ → Option HostReport → HostTable → Outcome
handle_report fault now none t = refuse 400 (codes "Invalid request body") t
handle_report fault now (some r) t =
    let hostname = trim_space r.hostname in
    let done = after_report (upsert_host fault now hostname (codes "root") (report_data r) t) in
    if is_empty hostname then refuse 400 (codes "Hostname cannot be empty") t else done

pub record CreateRequest : Type 0 where
  pub hostname : Text
  pub ssh_user : Text
  pub password : Text

-- What pkg/ssh's Bootstrap returns that the handler reads.
pub record BootstrapResult : Type 0 where
  pub private_key_pem : Text
  pub host_key : Text

-- The faults and the clock of one creation, with the password enrolment over SSH.
pub record CreateWorld : Type 0 where
  pub now : ℕ
  pub insert_fault : Option Error
  pub bootstrap : Text → Text → Text → Result Error BootstrapResult
  pub encrypt : Text → Result Error Text
  pub key_fault : Option Error
  pub rollback_fault : Option Error

abbrev pub root_or : Text → Text
root_or user = if is_empty user then codes "root" else user

-- A failure of AppendKnownHost is only logged.
abbrev pub key_added : CreateWorld → Host → Option Error × HostTable → Outcome
key_added w h (some e, t) =
    refuse 500 (codes "Enrollment succeeded but storing the key failed; please retry")
      (delete_host w.rollback_fault h.id t).1
key_added w h (none, t) = record { response = created h; dispatched = registered h; table = t }

abbrev pub bootstrapped : CreateWorld → Host → Result Error BootstrapResult → HostTable → Outcome
bootstrapped w h (err e) t =
    refuse 502 (codes "Auto-enrollment failed: " ++ error_text e)
      (delete_host w.rollback_fault h.id t).1
bootstrapped w h (ok result) t =
    key_added w h (add_ssh_key w.encrypt w.key_fault h.id result.private_key_pem t)

abbrev pub inserted_row :
    CreateWorld → Text → Text → Text → Result HostError Host × HostTable → Outcome
inserted_row w hostname user password (err duplicate_hostname, t) =
    refuse 409 (codes "A host with that hostname already exists") t
inserted_row w hostname user password (err (host_other e), t) =
    refuse 500 (codes "Failed to create host") t
inserted_row w hostname user [] (ok h, t) = record {
  response = created h;
  dispatched = registered h;
  table = t;
}
inserted_row w hostname user (c ∷ password) (ok h, t) =
    bootstrapped w h (w.bootstrap hostname user (c ∷ password)) t

unfoldable pub handle_create_host : CreateWorld → Option CreateRequest → HostTable → Outcome
handle_create_host w none t = refuse 400 (codes "Invalid request body") t
handle_create_host w (some r) t =
    let hostname = trim_space r.hostname in
    let user = root_or (trim_space r.ssh_user) in
    let done =
      inserted_row w hostname user r.password (create_host w.insert_fault w.now hostname user t) in
    if is_empty hostname then refuse 400 (codes "Hostname is required") t else done

-- The fields that the body of an update has.
pub record UpdateRequest : Type 0 where
  pub ssh_user : Option Text
  pub tags : Option (List Text)

unfoldable pub clean_tags : List Text → List Text
clean_tags [] = []
clean_tags (t ∷ ts) =
    let s = trim_space t in
    let rest = clean_tags ts in if is_empty s || ltb 64 (byte_length s) then rest else s ∷ rest

-- The faults of the two statements and the clock.
pub record UpdateWorld : Type 0 where
  pub user_fault : Option Error
  pub tags_fault : Option Error
  pub now : ℕ

abbrev pub update_refused : Text → Error → HostTable → Outcome
update_refused text e t =
    if is_no_rows e then refuse 404 (codes "Host not found") t else refuse 500 text t

abbrev pub tags_updated : Result Error Host × HostTable → Outcome
tags_updated (err e, t) = update_refused (codes "Failed to update host") e t
tags_updated (ok h, t) = record { response = updated h; dispatched = []; table = t }

-- The second half, on the host that the first half returned.
abbrev pub then_tags : UpdateWorld → ℕ → Option (List Text) → Host → HostTable → Outcome
then_tags w i none h t = record { response = updated h; dispatched = []; table = t }
then_tags w i (some tags) h t =
    tags_updated (update_host_tags w.tags_fault w.now i (clean_tags tags) t)

abbrev pub user_updated :
    UpdateWorld → ℕ → Option (List Text) → Result Error Host × HostTable → Outcome
user_updated w i tags (err e, t) = update_refused (codes "Failed to update host") e t
user_updated w i tags (ok h, t) = then_tags w i tags h t

abbrev pub user_given : UpdateWorld → ℕ → Option (List Text) → Text → HostTable → Outcome
user_given w i tags [] t = refuse 400 (codes "ssh_user cannot be empty") t
user_given w i tags (c ∷ s) t =
    user_updated w i tags (update_host_ssh_user w.user_fault w.now i (c ∷ s) t)

unfoldable pub handle_update_host : UpdateWorld → ℕ → Option UpdateRequest → HostTable → Outcome
handle_update_host w i none t = refuse 400 (codes "Invalid request body") t
handle_update_host w i (some r) t = elim r.ssh_user [
  | some user ↦ user_given w i r.tags (trim_space user) t
  | none ↦ elim r.tags [
    | none ↦ refuse 400 (codes "Nothing to update; ssh_user and tags are editable") t
    | some tags ↦ tags_updated (update_host_tags w.tags_fault w.now i (clean_tags tags) t)
  ]
]

abbrev pub delete_done : Result Error ℕ × HostTable → Outcome
delete_done (err e, t) = refuse 500 (codes "Failed to delete host") t
delete_done (ok zero, t) = refuse 404 (codes "Host not found") t
delete_done (ok (suc n), t) = record { response = deleted; dispatched = []; table = t }

abbrev pub confirmed : Option Error → ℕ → Text → Result Error Host → HostTable → Outcome
confirmed fault i confirm (err e) t = update_refused (codes "Failed to retrieve host") e t
confirmed fault i confirm (ok h) t =
    let done = delete_done (delete_host fault i t) in
    if text_eq confirm h.hostname
    then done
    else refuse 412 (codes "X-Confirm-Hostname header must match the host's hostname") t

-- `confirm` is the header X-Confirm-Hostname.
unfoldable pub handle_delete_host : Option Error → Option Error → ℕ → Text → HostTable → Outcome
handle_delete_host get_fault delete_fault i confirm t =
    confirmed delete_fault i confirm (get_host get_fault i t) t

pub record KeyRequest : Type 0 where
  pub ssh_user : Text
  pub private_key : Text

abbrev pub key_stored : Option Error × HostTable → Outcome
key_stored (none, t) = record { response = stored; dispatched = []; table = t }
key_stored (some e, t) = update_refused (codes "Failed to save SSH key") e t

-- `parses` is ssh.ParsePrivateKey without an error.
unfoldable pub handle_add_ssh_key :
    (Text → Bool)
    → (Text → Result Error Text)
    → KeyWorld
    → ℕ
    → Option KeyRequest
    → HostTable
    → Outcome
handle_add_ssh_key parses encrypt w i none t = refuse 400 (codes "Invalid request body") t
handle_add_ssh_key parses encrypt w i (some r) t =
    let user = trim_space r.ssh_user in
    let key = trim_space r.private_key in
    let done = key_stored (set_ssh_key_and_user encrypt w i user key t) in
    if is_empty user || is_empty key
    then refuse 400 (codes "ssh_user and private_key are required") t
    else if not (parses key)
    then refuse 400 (codes "private_key does not parse as a valid OpenSSH private key") t
    else done
