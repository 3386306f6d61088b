-- ===== src/Ssh/Bootstrap.antt =====
-- BootstrapOpts (backend/pkg/ssh/bootstrap.go): enrolment with a password.
use ubuntu_auto_update.Base.{
  Bool, true, false, not, ◌&&◌, ◌||◌, [], ◌∷◌, ◌++◌, Option, none, some, Text, codes, text_eq,
  is_empty, trim_space, ◌==◌, if◌then◌else◌, Result, ok, err, Error, message, wrapped, error_text,
  has_prefix,
}
use ubuntu_auto_update.Playbooks.{escape_quotes}
use ubuntu_auto_update.Ssh.Defs.{
  KeyFile, ScriptFault, format_authorized_key, install_line, run_script, scoped_sudoers_body,
  sanitize_for_filename,
}
use ubuntu_auto_update.Ssh.Rotate.{KeyPair, any_accepts}

unfoldable pub shell_quote : Text → Text
shell_quote s = codes "'" ++ (escape_quotes s ++ codes "'")

-- strings.Contains
unfoldable pub contains : Text → Text → Bool
contains [] sub = has_prefix [] sub
contains (c ∷ s) sub = has_prefix (c ∷ s) sub || contains s sub

unfoldable pub classify_auth_err : Error → Error
classify_auth_err e =
    let msg = error_text e in
    if contains msg (codes "unable to authenticate")
      || contains msg (codes "no supported methods remain")
    then message (
        codes
          "authentication failed — wrong password, wrong SSH user, or password auth disabled on the host (PasswordAuthentication no)")
    else if contains msg (codes "connection refused")
    then message (codes "connection refused — is sshd running on port 22?")
    else if contains msg (codes "no route to host")
        || (contains msg (codes "i/o timeout") || contains msg (codes "deadline exceeded"))
    then message (
        codes
          "could not reach host — check the hostname/IP and that the backend container can route to it")
    else e

unfoldable pub has_colon : Text → Bool
has_colon [] = false
has_colon (c ∷ s) = c == 0x3a || has_colon s

unfoldable pub dial_addr : Text → Text
dial_addr hostname = if has_colon hostname then hostname else hostname ++ codes ":22"

abbrev pub sudoers_dir : Text
sudoers_dir = codes "/etc/sudoers.d/"

-- The command in the root shell.
unfoldable pub inner_command : Text → Text → Text
inner_command user scope =
    let file = codes "uau-" ++ sanitize_for_filename user in
    codes "umask 077 && printf '%s' "
    ++ (shell_quote (scoped_sudoers_body user scope)
        ++ (codes " > "
            ++ (sudoers_dir
                ++ (file
                    ++ (codes " && chmod 0440 "
                        ++ (sudoers_dir
                            ++ (file ++ (codes " && visudo -cf " ++ (sudoers_dir ++ file)))))))))

unfoldable pub sudo_command : Text → Text
unfolding shell_quote
sudo_command inner = codes "sudo -S -p '' sh -c " ++ shell_quote inner

-- What the host and the network do. `sudo` is how the host runs the command that writes the
-- drop-in, and `probe` how it answers `sudo -n` of the probe in the new session.
pub record BootstrapWorld : Type 0 where
  pub accepts : Text → Text → Bool
  pub generated : Result Error KeyPair
  pub password_fault : Option Error
  pub captured_key : Option Text
  pub install_fault : Option ScriptFault
  pub sudo : Text → Option Error
  pub parse_fault : Option Error
  pub verify_fault : Option Error
  pub session_fault : Option Error
  pub probe : Option Error

pub record BootstrapRequest : Type 0 where
  pub hostname : Text
  pub ssh_user : Text
  pub password : Text
  pub sudo_scope : Text

pub record Enrolled : Type 0 where
  pub private_key_pem : Text
  pub authorized_key : Text
  pub host_key : Text
  pub sudo_configured : Bool
  pub sudo_scope : Text

abbrev pub is_root_user : Text → Bool
is_root_user user = text_eq user (codes "root")

abbrev pub probed :
    BootstrapWorld
    → Text
    → KeyPair
    → Text
    → Option Error
    → KeyFile
    → Result Error Enrolled × KeyFile
probed w scope k host_key (some e) f = (err (wrapped (codes "verify passwordless sudo: ") e), f)
probed w scope k host_key none f = (
  ok (record {
    private_key_pem = k.private_key_pem;
    authorized_key = format_authorized_key k.public_key;
    host_key = host_key;
    sudo_configured = true;
    sudo_scope = scope;
  }),
  f,
)

abbrev pub session_opened :
    BootstrapWorld
    → Text
    → KeyPair
    → Text
    → Option Error
    → KeyFile
    → Result Error Enrolled × KeyFile
session_opened w scope k host_key (some e) f = (err (wrapped (codes "verify session: ") e), f)
session_opened w scope k host_key none f = probed w scope k host_key w.probe f

abbrev pub unless_root :
    BootstrapWorld → Text → Text → KeyPair → Text → KeyFile → Result Error Enrolled × KeyFile
unless_root w user scope k host_key f =
    if is_root_user user
    then probed w scope k host_key none f
    else session_opened w scope k host_key w.session_fault f

-- The dial with the new key.
abbrev pub redialed :
    BootstrapWorld
    → Text
    → Text
    → KeyPair
    → Text
    → Option Error
    → KeyFile
    → Result Error Enrolled × KeyFile
redialed w user scope k host_key (some e) f = (err (wrapped (codes "verify key auth: ") e), f)
redialed w user scope k host_key none f =
    let done = unless_root w user scope k host_key f in
    if any_accepts (w.accepts k.private_key_pem) f.lines then done else (
      err (wrapped (codes "verify key auth: ") (message (codes "ssh: unable to authenticate"))),
      f,
    )

abbrev pub reparsed :
    BootstrapWorld
    → Text
    → Text
    → KeyPair
    → Text
    → Option Error
    → KeyFile
    → Result Error Enrolled × KeyFile
reparsed w user scope k host_key (some e) f =
    (err (wrapped (codes "parse generated private key: ") e), f)
reparsed w user scope k host_key none f = redialed w user scope k host_key w.verify_fault f

abbrev pub sudo_of : BootstrapWorld → Text → Text → Option Error
sudo_of w user scope =
    if is_root_user user then none else w.sudo (sudo_command (inner_command user scope))

abbrev pub sudo_written :
    BootstrapWorld
    → Text
    → Text
    → KeyPair
    → Text
    → Option Error
    → KeyFile
    → Result Error Enrolled × KeyFile
sudo_written w user scope k host_key (some e) f =
    (err (wrapped (codes "configure passwordless sudo: ") e), f)
sudo_written w user scope k host_key none f = reparsed w user scope k host_key w.parse_fault f

abbrev pub key_installed :
    BootstrapWorld
    → Text
    → Text
    → KeyPair
    → Text
    → Option Error × KeyFile
    → Result Error Enrolled × KeyFile
key_installed w user scope k host_key (some e, f) =
    (err (wrapped (codes "install authorized_keys: ") e), f)
key_installed w user scope k host_key (none, f) =
    sudo_written w user scope k host_key (sudo_of w user scope) f

abbrev pub captured :
    BootstrapWorld → Text → Text → KeyPair → Option Text → KeyFile → Result Error Enrolled × KeyFile
captured w user scope k none f =
    (err (message (codes "host key was not presented during ssh handshake")), f)
captured w user scope k (some host_key) f =
    key_installed w user scope k host_key
      (run_script w.install_fault (install_line (format_authorized_key k.public_key)) f)

abbrev pub password_dialed :
    BootstrapWorld
    → Text
    → Text
    → KeyPair
    → Option Error
    → KeyFile
    → Result Error Enrolled × KeyFile
password_dialed w user scope k (some e) f =
    (err (wrapped (codes "password ssh dial: ") (classify_auth_err e)), f)
password_dialed w user scope k none f = captured w user scope k w.captured_key f

abbrev pub pair_made :
    BootstrapWorld → Text → Text → Result Error KeyPair → KeyFile → Result Error Enrolled × KeyFile
pair_made w user scope (err e) f = (err e, f)
pair_made w user scope (ok k) f = password_dialed w user scope k w.password_fault f

abbrev pub apt_or : Text → Text
apt_or scope = if is_empty scope then codes "apt" else scope

abbrev pub bad_scope : Text → Error
bad_scope scope =
    message (codes "invalid sudo scope \"" ++ (scope ++ codes "\": want \"apt\" or \"full\""))

unfoldable pub bootstrap_opts :
    BootstrapWorld → BootstrapRequest → KeyFile → Result Error Enrolled × KeyFile
bootstrap_opts w r f =
    let user = trim_space r.ssh_user in
    let scope = apt_or r.sudo_scope in
    let done = pair_made w user scope w.generated f in
    if is_empty (trim_space r.hostname) || (is_empty user || is_empty r.password)
    then (err (message (codes "hostname, ssh_user, and password are all required")), f)
    else if not (text_eq scope (codes "apt")) && not (text_eq scope (codes "full"))
    then (err (bad_scope scope), f)
    else done
