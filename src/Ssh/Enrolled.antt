-- ===== src/Ssh/Enrolled.antt =====
-- What an enrolment with a password leaves on the host.
use ubuntu_auto_update.Base.{
  ◌≡◌, refl, ◌⊎◌, inl, inr, Bool, true, false, not, ◌&&◌, ◌||◌, Option, none, some, Text, codes,
  text_eq, is_empty, trim_space, if◌then◌else◌, Bool-cases, Result, ok, err, Error, message,
}
use ubuntu_auto_update.Ssh.Defs.{
  KeyFile, ScriptFault, before_write, after_write, format_authorized_key, has_line, install_line,
  run_script,
}
use ubuntu_auto_update.Ssh.Rotate.{KeyPair, any_accepts}
use ubuntu_auto_update.Ssh.Lines.{install-keeps}
use ubuntu_auto_update.Ssh.Bootstrap.{
  inner_command, sudo_command, BootstrapWorld, BootstrapRequest, Enrolled, is_root_user, probed,
  session_opened, redialed, reparsed, sudo_of, sudo_written, key_installed, captured,
  password_dialed, pair_made, apt_or, bad_scope, bootstrap_opts,
}

-- What an enrolment comes to, where the line `k` was in the file: it still is, and a success means
-- what the theorem below says.
abbrev IsEnrolled : BootstrapWorld → Text → Text → Result Error Enrolled × KeyFile → Type 0
IsEnrolled w user k o =
    (has_line k o.1.lines ≡ true)
    × (((e : Error) × (o.0 ≡ err e))
        ⊎ ((n : Enrolled) × (o.0 ≡ ok n)
            × (any_accepts (w.accepts n.private_key_pem) o.1.lines ≡ true)
            × ((is_root_user user ≡ true)
                ⊎ ((w.sudo (sudo_command (inner_command user n.sudo_scope)) ≡ none)
                    × (w.probe ≡ none)))))

failing :
    (w : BootstrapWorld) (user k : Text) (e : Error) (g : KeyFile)
    → has_line k g.lines ≡ true
    → IsEnrolled w user k (err e, g)
failing w user k e g there = (there, inl (e, refl))

module _ (w : BootstrapWorld) (user scope : Text) (f : KeyFile) (k : Text) (ended : f.ended ≡ true)
    (line : has_line k f.lines ≡ true) where
  probed-IsEnrolled :
      (p : KeyPair) (hk : Text) (g : KeyFile) (x : Option Error)
      → has_line k g.lines ≡ true
      → any_accepts (w.accepts p.private_key_pem) g.lines ≡ true
      → w.sudo (sudo_command (inner_command user scope)) ≡ none
      → w.probe ≡ x
      → IsEnrolled w user k (probed w scope p hk x g)
  probed-IsEnrolled p hk g (some e) there works sudo probe = failing w user k _ g there
  probed-IsEnrolled p hk g none there works sudo probe =
      (there, inr (_, refl, works, inr (sudo, probe)))

  session_opened-IsEnrolled :
      (p : KeyPair) (hk : Text) (g : KeyFile) (x : Option Error)
      → has_line k g.lines ≡ true
      → any_accepts (w.accepts p.private_key_pem) g.lines ≡ true
      → w.sudo (sudo_command (inner_command user scope)) ≡ none
      → IsEnrolled w user k (session_opened w scope p hk x g)
  session_opened-IsEnrolled p hk g (some e) there works sudo = failing w user k _ g there
  session_opened-IsEnrolled p hk g none there works sudo =
      probed-IsEnrolled p hk g w.probe there works sudo refl

  unless_root-IsEnrolled :
      (p : KeyPair) (hk : Text) (g : KeyFile) (root : Bool)
      → has_line k g.lines ≡ true
      → any_accepts (w.accepts p.private_key_pem) g.lines ≡ true
      → is_root_user user ≡ root
      → (if root then none else w.sudo (sudo_command (inner_command user scope))) ≡ none
      → IsEnrolled w user k (
          if root
          then probed w scope p hk none g
          else session_opened w scope p hk w.session_fault g)
  unless_root-IsEnrolled p hk g true there works is_root sudo =
      (there, inr (_, refl, works, inl is_root))
  unless_root-IsEnrolled p hk g false there works is_root sudo =
      session_opened-IsEnrolled p hk g w.session_fault there works sudo

  redialed-IsEnrolled :
      (p : KeyPair) (hk : Text) (g : KeyFile) (x : Option Error)
      → has_line k g.lines ≡ true
      → sudo_of w user scope ≡ none
      → IsEnrolled w user k (redialed w user scope p hk x g)
  redialed-IsEnrolled p hk g (some e) there sudo = failing w user k _ g there
  redialed-IsEnrolled p hk g none there sudo =
      elim (Bool-cases (any_accepts (w.accepts p.private_key_pem) g.lines)) [
        | inl e ↦ rw e (unless_root-IsEnrolled p hk g (is_root_user user) there e refl sudo)
        | inr e ↦ rw e (failing w user k _ g there)
      ]

  reparsed-IsEnrolled :
      (p : KeyPair) (hk : Text) (g : KeyFile) (x : Option Error)
      → has_line k g.lines ≡ true
      → sudo_of w user scope ≡ none
      → IsEnrolled w user k (reparsed w user scope p hk x g)
  reparsed-IsEnrolled p hk g (some e) there sudo = failing w user k _ g there
  reparsed-IsEnrolled p hk g none there sudo = redialed-IsEnrolled p hk g w.verify_fault there sudo

  sudo_written-IsEnrolled :
      (p : KeyPair) (hk : Text) (g : KeyFile) (x : Option Error)
      → has_line k g.lines ≡ true
      → sudo_of w user scope ≡ x
      → IsEnrolled w user k (sudo_written w user scope p hk x g)
  sudo_written-IsEnrolled p hk g (some e) there sudo = failing w user k _ g there
  sudo_written-IsEnrolled p hk g none there sudo =
      reparsed-IsEnrolled p hk g w.parse_fault there sudo

  key_installed-IsEnrolled :
      (p : KeyPair) (hk : Text) (x : Option ScriptFault)
      → IsEnrolled w user k (
          key_installed w user scope p hk
            (run_script x (install_line (format_authorized_key p.public_key)) f))
  unfolding run_script
  key_installed-IsEnrolled p hk (some (before_write e)) = failing w user k _ f line
  key_installed-IsEnrolled p hk (some (after_write e)) =
      failing w user k _ (install_line (format_authorized_key p.public_key) f)
        (install-keeps k _ f ended line)
  key_installed-IsEnrolled p hk none =
      sudo_written-IsEnrolled p hk (install_line (format_authorized_key p.public_key) f)
        (sudo_of w user scope) (install-keeps k _ f ended line) refl

  captured-IsEnrolled :
      (p : KeyPair) (x : Option Text) → IsEnrolled w user k (captured w user scope p x f)
  captured-IsEnrolled p none = failing w user k _ f line
  captured-IsEnrolled p (some hk) = key_installed-IsEnrolled p hk w.install_fault

  password_dialed-IsEnrolled :
      (p : KeyPair) (x : Option Error) → IsEnrolled w user k (password_dialed w user scope p x f)
  password_dialed-IsEnrolled p (some e) = failing w user k _ f line
  password_dialed-IsEnrolled p none = captured-IsEnrolled p w.captured_key

  pair_made-IsEnrolled :
      (x : Result Error KeyPair) → IsEnrolled w user k (pair_made w user scope x f)
  pair_made-IsEnrolled (err e) = failing w user k e f line
  pair_made-IsEnrolled (ok p) = password_dialed-IsEnrolled p w.password_fault

-- Enrolment with a password, on a host where each line of authorized_keys ends with a newline: a
-- line that was there stays, whatever fails; and a success means that the host lets the new key in,
-- and that for a user other than root the sudo command ran and the probe after it passed.
pub bootstrap_opts-Enrols :
    (w : BootstrapWorld) (r : BootstrapRequest) (f : KeyFile) (k : Text)
    → f.ended ≡ true
    → has_line k f.lines ≡ true
    → (has_line k (bootstrap_opts w r f).1.lines ≡ true)
      × (((e : Error) × ((bootstrap_opts w r f).0 ≡ err e))
          ⊎ ((n : Enrolled) × ((bootstrap_opts w r f).0 ≡ ok n)
              × (any_accepts (w.accepts n.private_key_pem) (bootstrap_opts w r f).1.lines ≡ true)
              × ((is_root_user (trim_space r.ssh_user) ≡ true)
                  ⊎ ((w.sudo (sudo_command (inner_command (trim_space r.ssh_user) n.sudo_scope))
                        ≡ none)
                      × (w.probe ≡ none)))))
unfolding bootstrap_opts
bootstrap_opts-Enrols w r f k ended line =
    by_guards (is_empty (trim_space r.hostname) || (is_empty user || is_empty r.password))
      (not (text_eq scope (codes "apt")) && not (text_eq scope (codes "full")))
  where
    user : Text
    user = trim_space r.ssh_user

    scope : Text
    scope = apt_or r.sudo_scope

    by_guards :
        (a b : Bool)
        → IsEnrolled w user k (
            if a
            then (err (message (codes "hostname, ssh_user, and password are all required")), f)
            else if b
            then (err (bad_scope scope), f)
            else pair_made w user scope w.generated f)
    by_guards true b = failing w user k _ f line
    by_guards false true = failing w user k _ f line
    by_guards false false = pair_made-IsEnrolled w user scope f k ended line w.generated
