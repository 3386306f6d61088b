-- ===== src/Playbooks/Tests.antt =====
-- Runs of the definitions, and the theorems at concrete steps.
use ubuntu_auto_update.Base.{
  false, ◌⊎◌, map, ◌≡◌, refl, List, [], ◌∷◌, Text, codes, true, ok, text_eq, trim_space,
  byte_length,
}
use ubuntu_auto_update.Playbooks.Defs.{compile_steps, clean_steps, is_root}
use ubuntu_auto_update.Playbooks.Shell.{compile_steps_lem, shell_words, sudo_words}
use ubuntu_auto_update.Base.{none}
use ubuntu_auto_update.Playbooks.Store.{Playbook, PlaybookTable, create_playbook, is_name_taken}
use ubuntu_auto_update.Playbooks.Requests.{
  PlaybookRequest, handle_create_playbook, check_playbook, IsStorable,
  handle_create_playbook-IsStorable,
}

compiled :
    compile_steps (codes "echo 'a'" ∷ []) (codes "ubuntu") true
    ≡ codes "sudo -n sh -c 'echo '\\''a'\\'''" ∷ []
unfolding compile_steps text_eq
compiled = refl

abbrev typed : List Text
typed = codes " ls " ∷ codes "  " ∷ codes "id" ∷ []

abbrev cleaned : List Text
cleaned = codes "ls" ∷ codes "id" ∷ []

typed-cleaned : clean_steps typed ≡ ok cleaned
unfolding clean_steps trim_space byte_length
typed-cleaned = refl

abbrev one_step : List Text
one_step = codes "echo 'a'" ∷ []

compile_steps_lem_example :
    ((true ≡ true)
      × (is_root (codes "ubuntu") ≡ false)
      × (map shell_words (compile_steps one_step (codes "ubuntu") true) ≡ map sudo_words one_step))
    ⊎ (((true ≡ false) ⊎ (is_root (codes "ubuntu") ≡ true))
        × (compile_steps one_step (codes "ubuntu") true ≡ one_step))
compile_steps_lem_example = compile_steps_lem one_step (codes "ubuntu") true

abbrev request : PlaybookRequest
request = record { name = codes "list"; description = []; steps = typed; use_sudo = none }

abbrev stored : Playbook
stored = record {
  id = 1;
  name = codes "list";
  description = [];
  steps = cleaned;
  use_sudo = true;
  created_by = codes "unknown";
  created_at = 3;
  updated_at = 3;
}

abbrev no_playbooks : PlaybookTable
no_playbooks = record { rows = []; next_id = 1 }

abbrev one_playbook : PlaybookTable
one_playbook = record { rows = stored ∷ []; next_id = 2 }

request-stored : handle_create_playbook none 3 none request no_playbooks ≡ (ok stored, one_playbook)
unfolding handle_create_playbook check_playbook clean_steps trim_space byte_length create_playbook
    is_name_taken
request-stored = refl

handle_create_playbook-IsStorable_example : IsStorable stored
handle_create_playbook-IsStorable_example =
    handle_create_playbook-IsStorable none 3 none request no_playbooks one_playbook stored
      request-stored
