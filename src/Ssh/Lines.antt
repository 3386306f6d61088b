-- ===== src/Ssh/Lines.antt =====
-- What the two scripts do to the lines of authorized_keys, and to the keys that get in by them.
use ubuntu_auto_update.Base.{
  arith, ◌≡◌, refl, ap, ◌∙◌, inl, inr, Bool, true, false, List, [], ◌∷◌, ◌++◌, Text, text_eq,
  text_eq_iff, text_eq_self, Bool-cases,
}
use ubuntu_auto_update.Ssh.Defs.{
  authorized_key_marker, KeyFile, has_line, append_line, install_line, last_field, revoke_lines,
}
use ubuntu_auto_update.Ssh.Rotate.{any_accepts}

accepts-append :
    (p : Text → Bool) (ls : List Text) (l : Text)
    → any_accepts p ls ≡ true
    → any_accepts p (ls ++ l ∷ []) ≡ true
unfolding any_accepts
accepts-append p [] l h = ground (arith, h)
accepts-append p (m ∷ ls) l h = ground (arith, accepts-append p ls l)

has_line-append :
    (k : Text) (ls : List Text) (l : Text) → has_line k ls ≡ true → has_line k (ls ++ l ∷ []) ≡ true
unfolding has_line
has_line-append k [] l h = ground (arith, h)
has_line-append k (m ∷ ls) l h = ground (arith, has_line-append k ls l)

has_line-last : (ls : List Text) (l : Text) → has_line l (ls ++ l ∷ []) ≡ true
unfolding has_line
has_line-last [] l = rw (text_eq_self l) refl
has_line-last (m ∷ ls) l = ground (arith, has_line-last ls l)

-- Keys that get in before the new line is installed get in afterwards.
pub install-accepts :
    (p : Text → Bool) (l : Text) (f : KeyFile)
    → f.ended ≡ true
    → any_accepts p f.lines ≡ true
    → any_accepts p (install_line l f).lines ≡ true
unfolding install_line append_line
install-accepts p l f ended h = ground (arith, accepts-append p f.lines l h)

pub install-keeps :
    (k l : Text) (f : KeyFile)
    → f.ended ≡ true
    → has_line k f.lines ≡ true
    → has_line k (install_line l f).lines ≡ true
unfolding install_line append_line
install-keeps k l f ended h = ground (arith, has_line-append k f.lines l h)

pub install-has_line :
    (l : Text) (f : KeyFile) → f.ended ≡ true → has_line l (install_line l f).lines ≡ true
unfolding install_line append_line
install-has_line l f ended = ground (arith, has_line-last f.lines l)

pub revoke-accepts :
    (p : Text → Bool) (keep : Text) (ls : List Text)
    → p keep ≡ true
    → has_line keep ls ≡ true
    → any_accepts p (revoke_lines keep ls) ≡ true
unfolding has_line revoke_lines any_accepts
revoke-accepts p keep [] good h = ground (arith, h)
revoke-accepts p keep (l ∷ ls) good h = elim (Bool-cases (text_eq l keep)) [
  | inl e ↦ rw (e, (text_eq_iff l keep).0 e, good) refl
  | inr e ↦ ground (arith, e, h, revoke-accepts p keep ls good)
]

pub revoke-keeps :
    (k keep : Text) (ls : List Text)
    → text_eq (last_field k) authorized_key_marker ≡ false
    → has_line k ls ≡ true
    → has_line k (revoke_lines keep ls) ≡ true
unfolding has_line revoke_lines
revoke-keeps k keep [] other h = ground (arith, h)
revoke-keeps k keep (l ∷ ls) other h = elim (Bool-cases (text_eq l k)) [
  | inl e ↦
      let mine : text_eq (last_field l) authorized_key_marker ≡ false =
        ap (λ x. text_eq (last_field x) authorized_key_marker) ((text_eq_iff l k).0 e) ∙ other in
      ground (arith, e, mine)
  | inr e ↦ ground (arith, e, h, revoke-keeps k keep ls other)
]
