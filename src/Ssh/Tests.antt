-- ===== src/Ssh/Tests.antt =====
-- A rotation, an enrolment and a host key, run and taken through the theorems.
use ubuntu_auto_update.Base.{
  ◌≡◌, refl, ap, subst, ◌⊎◌, Bool, true, false, ◌&&◌, ◌||◌, [], ◌∷◌, Option, none, some,
  if◌then◌else◌, Text, codes, text_eq, is_none, trim_space, has_prefix, Result, ok, err, Error,
  message,
}
use ubuntu_auto_update.Hosts.Defs.{SshKey, HostTable, new_host, get_host, host_by_id}
use ubuntu_auto_update.Hosts.Keys.{put_key, add_ssh_key, get_ssh_key, find_key}
use ubuntu_auto_update.Playbooks.Shell.{shell_words}
use ubuntu_auto_update.Ssh.Defs.{
  scoped_sudoers_body, format_authorized_key, KeyFile, has_line, last_field, revoke_others,
  install_line, run_script, trim_newlines, append_line, revoke_lines, last_word, extend_last,
  revoke_lines, last_word, append_line,
}
use ubuntu_auto_update.Ssh.Rotate.{
  rotate_key, dial_with, KeyPair, RotateWorld, any_accepts, replaced, rotate_refused, RotateStore,
  handle_rotate_key,
}
use ubuntu_auto_update.Ssh.Keep.{handle_rotate_key-Keeps}
use ubuntu_auto_update.Ssh.Bootstrap.{
  inner_command, sudo_command, BootstrapWorld, BootstrapRequest, Enrolled, is_root_user,
  bootstrap_opts, dial_addr, has_colon,
}
use ubuntu_auto_update.Ssh.Sudo.{WritesDropIn, sudo_command-shell_words}
use ubuntu_auto_update.Ssh.Enrolled.{bootstrap_opts-Enrols}
use ubuntu_auto_update.Ssh.HostKeys.{
  connect_addr, host_key_callback, append_known_host, host_key_callback-append,
}

-- A private key is its public key, and a line lets in the key that it starts with.
abbrev lets : Text → Text → Bool
lets pem line = has_prefix line pem

abbrev old_line : Text
old_line = codes "OLD ubuntu-auto-update"

abbrev operator_line : Text
operator_line = codes "OPS ops@desk"

abbrev keys : KeyFile
keys = record { lines = operator_line ∷ old_line ∷ []; ended = true }

abbrev pair : KeyPair
pair = record { private_key_pem = codes "NEW"; public_key = codes "NEW\n" }

abbrev calm : RotateWorld
calm = record {
  accepts = lets;
  connect_fault = none;
  generated = ok pair;
  install_fault = none;
  parse_fault = none;
  host_key_fault = none;
  verify_fault = none;
  revoke_fault = none;
}

abbrev hosts : HostTable
hosts = record {
  rows = new_host 1 100 (codes "web") (codes "deploy") ∷ [];
  keys = record { host_id = 1; private_key = codes "OLD" } ∷ [];
  next_id = 2;
}

abbrev plain : RotateStore
plain = record {
  encrypt = λ s. ok s;
  decrypt = λ s. ok s;
  get_fault = none;
  key_fault = none;
  put_fault = none;
}

rotate_test : handle_rotate_key plain calm 1 hosts keys ≡ (
  replaced none,
  record {
    rows = hosts.rows;
    keys = record { host_id = 1; private_key = codes "NEW" } ∷ [];
    next_id = 2;
  },
  record { lines = operator_line ∷ codes "NEW ubuntu-auto-update" ∷ []; ended = true },
)
unfolding handle_rotate_key get_host host_by_id rotate_key get_ssh_key find_key dial_with
    any_accepts has_prefix run_script install_line has_line text_eq format_authorized_key
    trim_newlines append_line add_ssh_key put_key revoke_others revoke_lines last_field last_word
rotate_test = refl

-- A store that fails after the rotation: the key that it holds no longer opens the host.
stranded_test :
    handle_rotate_key (record plain { put_fault = some (message (codes "down")) }) calm 1 hosts keys
    ≡ (
      rotate_refused 500 (codes "Rotation succeeded but persisting key failed; please retry"),
      hosts,
      record { lines = operator_line ∷ codes "NEW ubuntu-auto-update" ∷ []; ended = true },
    )
unfolding handle_rotate_key get_host host_by_id rotate_key get_ssh_key find_key dial_with
    any_accepts has_prefix run_script install_line has_line text_eq format_authorized_key
    trim_newlines append_line add_ssh_key put_key revoke_others revoke_lines last_field last_word
stranded_test = refl

-- A file whose last line is open: the new line joins the operator's, and a later rotation takes
-- both away.
joined_test :
    revoke_others (codes "NEXT ubuntu-auto-update") (
      install_line
        (codes "NEW ubuntu-auto-update")
        (record { lines = operator_line ∷ []; ended = false }))
    ≡ record { lines = []; ended = true }
unfolding revoke_others install_line revoke_lines has_line text_eq append_line extend_last
    last_field last_word
joined_test = refl

opens : (key c : Text) → plain.encrypt key ≡ ok c → plain.decrypt c ≡ ok key
opens key c h = cc

abbrev made_pair : Result Error KeyPair → KeyPair
made_pair (ok p) = p
made_pair (err e) = pair

pair_of : {p : KeyPair} → calm.generated ≡ ok p → pair ≡ p
pair_of h = ap made_pair h

lets_new :
    (p : KeyPair)
    → calm.generated ≡ ok p
    → calm.accepts p.private_key_pem (format_authorized_key p.public_key) ≡ true
unfolding format_authorized_key trim_newlines has_prefix
lets_new p h =
    subst (λ x. lets x.private_key_pem (format_authorized_key x.public_key) ≡ true) (pair_of h) refl

handle_rotate_key-Keeps_example :
    (has_line operator_line (handle_rotate_key plain calm 1 hosts keys).2.lines ≡ true)
    × (((new : SshKey) × (get_ssh_key plain.decrypt none 1
              (handle_rotate_key plain calm 1 hosts keys).1
            ≡ ok new)
          × (any_accepts (lets new.private_key) (handle_rotate_key plain calm 1 hosts keys).2.lines
              ≡ true))
        ⊎ (((handle_rotate_key plain calm 1 hosts keys).0
              ≡ rotate_refused 500
                  (codes "Rotation succeeded but persisting key failed; please retry"))
            × ((handle_rotate_key plain calm 1 hosts keys).1 ≡ hosts)))
unfolding get_ssh_key any_accepts last_field has_line find_key has_prefix text_eq last_word
handle_rotate_key-Keeps_example =
    handle_rotate_key-Keeps plain calm 1 hosts keys (codes "OLD") operator_line opens lets_new refl
      refl refl refl refl

sudo_command-shell_words_example :
    (shell_words (sudo_command (inner_command (codes "../o'x") (codes "apt")))
      ≡ some (
          codes "sudo"
          ∷ codes "-S"
          ∷ codes "-p"
          ∷ []
          ∷ codes "sh"
          ∷ codes "-c"
          ∷ inner_command (codes "../o'x") (codes "apt")
          ∷ []))
    × WritesDropIn
        (scoped_sudoers_body (codes "../o'x") (codes "apt"))
        (inner_command (codes "../o'x") (codes "apt"))
sudo_command-shell_words_example = sudo_command-shell_words (codes "../o'x") (codes "apt")

abbrev friendly : BootstrapWorld
friendly = record {
  accepts = lets;
  generated = ok pair;
  password_fault = none;
  captured_key = some (codes "host key");
  install_fault = none;
  sudo = λ command. none;
  parse_fault = none;
  verify_fault = none;
  session_fault = none;
  probe = none;
}

abbrev enrolling : BootstrapRequest
enrolling = record {
  hostname = codes "web";
  ssh_user = codes " deploy ";
  password = codes "pw";
  sudo_scope = [];
}

bootstrap_opts-Enrols_example :
    (has_line operator_line (bootstrap_opts friendly enrolling keys).1.lines ≡ true)
    × (((e : Error) × ((bootstrap_opts friendly enrolling keys).0 ≡ err e))
        ⊎ ((n : Enrolled) × ((bootstrap_opts friendly enrolling keys).0 ≡ ok n)
            × (any_accepts (lets n.private_key_pem) (bootstrap_opts friendly enrolling keys).1.lines
                ≡ true)
            × ((is_root_user (trim_space (codes " deploy ")) ≡ true)
                ⊎ ((friendly.sudo
                        (sudo_command (inner_command (trim_space (codes " deploy ")) n.sudo_scope))
                      ≡ none)
                    × (friendly.probe ≡ none)))))
unfolding has_line text_eq
bootstrap_opts-Enrols_example =
    bootstrap_opts-Enrols friendly enrolling keys operator_line refl refl

-- SplitHostPort on these addresses.
abbrev split_of : Text → Option Text
split_of addr = if text_eq addr (codes "web:22") then some (codes "web") else none

abbrev same : Text → Text
same s = s

host_key_callback-append_example :
    is_none (
      host_key_callback same split_of none
        (connect_addr (codes "web"))
        (codes "K")
        (append_known_host same [] true none none (codes "web") (codes "K") []).1)
    ≡ (is_none (host_key_callback same split_of none (connect_addr (codes "web")) (codes "K") [])
        || (text_eq (codes "web") (codes "web") && text_eq (same (codes "K")) (same (codes "K"))))
unfolding connect_addr text_eq
host_key_callback-append_example =
    host_key_callback-append same split_of (codes "web") (codes "K") (codes "web") (codes "K") []
      refl

-- A hostname with a port of its own: enrolment dials it as it is, a later dial adds a second port.
ports_test :
    (dial_addr (codes "web:2222") ≡ codes "web:2222")
    × (connect_addr (codes "web:2222") ≡ codes "web:2222:22")
unfolding dial_addr connect_addr has_colon
ports_test = (refl, refl)
