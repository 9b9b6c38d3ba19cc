-- ===== src/Workspace/Examples.antt =====
-- The theorems on workspaces and invitations, at a collection that is a list of documents by their keys.
use flowra.Base.{
  map, Result, Text, Uuid, text, same, same_iff, same_refl, is_empty, Bool, true, false, not,
  Option, none, some, List, [], ◌∷◌, ◌≡◌, refl, sym, ap, ◌∙◌, Bool-cases, inl, inr, arith, pos, ok,
  err, has_key, if◌then◌else◌,
}
use flowra.Errs.{invalid_state, failed}
use flowra.UseCase.Commands.{byte_length}
use flowra.Workspace.Invite.{
  Invite, Workspace, Env, new_workspace, new_invite, use_invite, is_valid,
}
use flowra.Workspace.Limits.{
  Call, use_call, revoke_call, run, uses, Within, new_invite-uses, run-revoked, use_invite-is_valid,
}
use flowra.Workspace.Documents.{
  kept_document, in_millis, in_nanos, document_in, millis-nanos, has_token-in, has_token,
  WorkspaceDocument, workspace_to_document, document_to_invite, documents_to_invites,
  document_to_workspace,
}
use flowra.Workspace.Repository.{
  AppError, of_domain, Collection, Answers, World, find_workspace, token_in, find_invite, save,
}
use flowra.Workspace.Accept.{accepted, accept_invite}
use flowra.Workspace.Create.{create_workspace}
use flowra.Workspace.Accepting.{IsSound, accept_all, accept_invite-unlimited}
use flowra.Workspace.Manage.{create_invite}
use flowra.Workspace.Inviting.{IsWell, create_invite-accept_invite}
use flowra.Workspace.Creating.{create_workspace-rollback}

-- The collection as a list of what is kept_document, in milliseconds.
abbrev pub Documents : Type 0
Documents = List (Text × WorkspaceDocument)

abbrev pub find_document :
    (WorkspaceDocument → Text → Bool) → Documents → Text → Option WorkspaceDocument
find_document p [] k = none
find_document p ((i, d) ∷ s) k =
    let rest = find_document p s k in if p d k then some (document_in in_nanos d) else rest

abbrev pub find_key : Documents → Text → Option WorkspaceDocument
find_key [] k = none
find_key ((i, d) ∷ s) k =
    let rest = find_key s k in if same i k then some (document_in in_nanos d) else rest

abbrev pub put_key : Documents → Text → WorkspaceDocument → Documents
put_key [] k d = (k, document_in in_millis d) ∷ []
put_key ((i, e) ∷ s) k d =
    let rest = put_key s k d in if same i k then (i, document_in in_millis d) ∷ s else (i, e) ∷ rest

pub find_key-put_key :
    (s : Documents) (k : Text) (d : WorkspaceDocument)
    → find_key (put_key s k d) k ≡ some (kept_document d)
find_key-put_key [] k d = ground (arith, same_refl k)
find_key-put_key ((i, e) ∷ s) k d = ground (arith, find_key-put_key s k d)

pub put_key_found :
    (s : Documents) (k : Text) (d : WorkspaceDocument) → find_key s k ≡ some d → put_key s k d ≡ s
put_key_found [] k d h = cc
put_key_found ((i, e) ∷ s) k d h = elim (Bool-cases (same i k)) [
  | inl p ↦
      let found : document_in in_nanos e ≡ d = ground arith in
      let there : document_in in_millis d ≡ e =
        ap (document_in in_millis) (sym found) ∙ millis-nanos e in
      rw (p, there) refl
  | inr p ↦ ground (arith, put_key_found s k d)
]

pub has_document :
    (ds : Documents) (t k : Text) (d : WorkspaceDocument)
    → find_document (λ d t. has_token d.invites t) ds t ≡ none
    → find_key ds k ≡ some d
    → has_token d.invites t ≡ false
has_document [] t k d h p = cc
has_document ((i, e) ∷ ds) t k d h p =
    ground (arith, has_document ds t k d, has_token-in in_nanos e.invites t)

pub find_document-put_key :
    (ds : Documents) (k t : Text) (d : WorkspaceDocument)
    → find_document (λ d t. has_token d.invites t) ds t ≡ none
    → has_token d.invites t ≡ true
    → find_document (λ d t. has_token d.invites t) (put_key ds k d) t ≡ some (kept_document d)
find_document-put_key [] k t d h p = ground (arith, has_token-in in_millis d.invites t)
find_document-put_key ((i, e) ∷ ds) k t d h p =
    ground (arith, find_document-put_key ds k t d, has_token-in in_millis d.invites t)

abbrev pub listed : Collection
listed = record {
  State = Documents;
  find_by_id = find_key;
  find_by_token = find_document (λ d t. has_token d.invites t);
  put = put_key;
  find_page = λ s offset n. map (λ p. p.1) s;
  find-put = find_key-put_key;
  put_found = put_key_found;
  token-none = λ s t k d. has_document s t k d;
  token-put = λ s k t d. find_document-put_key s k t d;
}

abbrev an_env : Env
an_env = record {
  checked_at = 4;
  validated_at = 4;
  created_at = 5000000000;
  updated_at = 5000000000;
  new_id = text "i1";
  new_token = text "t1";
}

abbrev pub parses : Text → Bool
parses s = not (is_empty s)

-- One use is allowed.
abbrev pub an_invite : Invite
an_invite = record {
  id = text "i1";
  workspace_id = text "w1";
  token = text "t1";
  created_by = text "ann";
  created_at = 5000000000;
  expires_at = 90000000000;
  max_uses = pos 1;
  used_count = 0;
  is_revoked = false;
}

abbrev a_revoked_invite : Invite
a_revoked_invite = record an_invite { is_revoked = true }

abbrev pub a_workspace : Workspace
a_workspace = record {
  id = text "w1";
  name = text "Flow";
  description = [];
  keycloak_group_id = text "g1";
  created_by = text "ann";
  created_at = 3000000000;
  updated_at = 5000000000;
  invites = an_invite ∷ [];
}

abbrev some_calls : List Call
some_calls = use_call 10 ∷ use_call 11 ∷ revoke_call ∷ []

made-an_invite : new_invite an_env (text "w1") (text "ann") 90000000000 (pos 1) ≡ ok an_invite
unfolding new_invite
made-an_invite = refl

new_invite-uses_example :
    ((run some_calls an_invite).used_count ≡ uses some_calls an_invite)
    × Within (pos 1) (uses some_calls an_invite)
new_invite-uses_example =
    new_invite-uses an_env (text "w1") (text "ann") 90000000000 (pos 1) an_invite some_calls
      made-an_invite

run-revoked_example :
    (uses some_calls a_revoked_invite ≡ 0) × (run some_calls a_revoked_invite ≡ a_revoked_invite)
run-revoked_example = run-revoked some_calls a_revoked_invite refl

use_invite-is_valid_example : use_invite 10 an_invite ≡ (
    if is_valid 10 an_invite then ok (record an_invite { used_count = 1 }) else err invalid_state)
use_invite-is_valid_example = use_invite-is_valid 10 an_invite

abbrev pub all_well : Answers
all_well = record {
  context_ended = false;
  find_invite_fails = false;
  find_workspace_fails = false;
  save_fails = false;
  add_member_fails = false;
  new_group = some (text "g2");
  delete_group_fails = false;
  add_user_fails = false;
}

abbrev no_saving : Answers
no_saving = record all_well { save_fails = true }

abbrev pub a_world : World parses listed
a_world = record {
  store = (text "w1", document_in in_millis (workspace_to_document a_workspace)) ∷ [];
  members = [];
  groups = text "g1" ∷ [];
  group_users = [];
}

pub a_world-IsSound : IsSound parses listed a_world.store
a_world-IsSound = record {
  keyed = λ k d h. ground (arith, same_iff (text "w1") k);
  readable = λ k d h. ground (arith, same_iff (text "w1") k);
}

pub one_accepted :
    (accept_invite parses listed all_well 10 11 (text "t1") (text "bob") a_world).0 ≡ ok a_workspace
unfolding accept_invite accepted find_invite token_in find_workspace save use_invite is_valid
    document_to_invite document_to_workspace documents_to_invites same has_token
one_accepted = refl

abbrev two_users : List Uuid
two_users = text "eve" ∷ text "dan" ∷ []

-- Three users join by an invitation for one.
accept_invite-unlimited_example :
    ((accept_all parses listed all_well 10 11 (text "t1") (text "bob" ∷ two_users) a_world).0 ≡ 3)
    × ((accept_all parses listed all_well 10 11
          (text "t1")
          (text "bob" ∷ two_users)
          a_world).1.store
        ≡ a_world.store)
accept_invite-unlimited_example =
    accept_invite-unlimited parses listed all_well 10 11 (text "t1") (text "bob") two_users a_world
      a_workspace a_world-IsSound one_accepted (refl, (refl, tt))

new_group-fresh :
    (g : Text) → no_saving.new_group ≡ some g → has_key (λ h. h) a_world.groups g ≡ false
new_group-fresh g h = ground (arith, same_iff (text "g1") g)

save_failed :
    (create_workspace parses listed no_saving an_env 6 (text "Plan") [] (text "ann") a_world).0
    ≡ err (of_domain failed)
unfolding create_workspace new_workspace save byte_length
save_failed = refl

create_workspace-rollback_example :
    (create_workspace parses listed no_saving an_env 6 (text "Plan") [] (text "ann") a_world).1
    ≡ a_world
create_workspace-rollback_example =
    create_workspace-rollback parses listed no_saving an_env 6 (text "Plan") [] (text "ann") a_world
      (of_domain failed) refl refl new_group-fresh save_failed

-- An invitation that is made and used: the new identity is "i2", its token "t2".
abbrev second_env : Env
second_env = record an_env { new_id = text "i2"; new_token = text "t2" }

abbrev invited : Result AppError (Invite × Documents)
invited =
    create_invite parses listed all_well second_env 4 4 (text "w1") none none (text "ann")
      a_world.store

abbrev second_invite : Invite
second_invite = record {
  id = text "i2";
  workspace_id = text "w1";
  token = text "t2";
  created_by = text "ann";
  created_at = 5000000000;
  expires_at = 604800000000004;
  max_uses = pos 0;
  used_count = 0;
  is_revoked = false;
}

abbrev store_after : Result AppError (Invite × Documents) → Documents
store_after (ok (i, s)) = s
store_after (err e) = []

abbrev second_world : World parses listed
second_world = record a_world { store = store_after invited }

invited-second :
    create_invite parses listed all_well second_env 4 4
      (text "w1")
      none
      none
      (text "ann")
      a_world.store
    ≡ ok (second_invite, second_world.store)
unfolding create_invite find_workspace save document_to_workspace documents_to_invites
    document_to_invite flowra.Workspace.Invite.create_invite new_invite same
invited-second = refl

second_token-new : listed.find_by_token a_world.store (text "t2") ≡ none
unfolding has_token same
second_token-new = refl

all_well-IsWell : IsWell all_well
all_well-IsWell = record {
  in_time = refl;
  finds_invite = refl;
  finds_workspace = refl;
  saves = refl;
  adds_user = refl;
}

create_invite-accept_invite_example :
    (w : Workspace) × ((accept_invite parses listed all_well 10 11
        (text "t2")
        (text "bob")
        second_world).0
      ≡ ok w)
    × (w.id ≡ text "w1")
create_invite-accept_invite_example =
    create_invite-accept_invite parses listed all_well second_env 4 4 (text "w1") none none
      (text "ann") second_invite a_world second_world all_well 10 11 (text "bob") invited-second
      second_token-new refl refl all_well-IsWell refl (omega arith) (omega arith)
