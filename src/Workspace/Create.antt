-- ===== src/Workspace/Create.antt =====
-- internal/application/workspace/create_workspace.go: Execute of CreateWorkspaceUseCase.
use flowra.Base.{
  ℕ, Text, Uuid, text, Bool, Option, none, some, ◌∷◌, Result, ok, err, ◌>>◌, fail_if, if◌then◌else◌,
  without_key, ltb,
}
use flowra.Errs.{Error}
use flowra.UseCase.Commands.{byte_length}
use flowra.Workspace.Invite.{Workspace, Env, new_workspace}
use flowra.Workspace.Members.{owner, new_member}
use flowra.Workspace.Repository.{
  AppError, invalid_field, context_ended, keycloak_group_creation_failed, of_domain, Collection,
  Answers, required, World, save, add_member,
}

abbrev pub max_name_length : ℕ
max_name_length = 100

module _ (is_uuid : Text → Bool) (coll : Collection) where
  open coll use {State, find_by_id, find_by_token, put}

  -- The method validate of CreateWorkspaceUseCase
  abbrev pub validate_create : Text → Uuid → Result AppError (Unit {0})
  validate_create name by = do
    required (text "name") name
    fail_if (ltb max_name_length (byte_length name)) (invalid_field (text "name"))
    required (text "createdBy") by

  -- DeleteGroup, the error of which is ignored
  abbrev pub delete_group : Answers → Text → World is_uuid coll → World is_uuid coll
  delete_group ans g s =
      if ans.delete_group_fails then s else record s { groups = without_key (λ h. h) s.groups g }

  -- The rest behind AddMember: a failed AddUserToGroup is ignored.
  abbrev pub with_owner :
      Answers
      → Text
      → Workspace
      → Uuid
      → World is_uuid coll
      → Result Error (World is_uuid coll)
      → Result AppError Workspace × World is_uuid coll
  with_owner ans g w by s (err e) = (err (of_domain e), s)
  with_owner ans g w by s (ok t) =
      (ok w, if ans.add_user_fails then t else record t { group_users = (g, by) ∷ t.group_users })

  -- The rest behind Save.
  abbrev pub with_store :
      Answers
      → ℕ
      → Text
      → Workspace
      → Uuid
      → World is_uuid coll
      → Result Error State
      → Result AppError Workspace × World is_uuid coll
  with_store ans joined g w by s (err e) = (err (of_domain e), delete_group ans g s)
  with_store ans joined g w by s (ok stored) =
      let t = record s { store = stored } in
      with_owner ans g w by t
        (add_member is_uuid coll ans.add_member_fails (new_member joined by w.id owner) t)

  -- The rest behind NewWorkspace.
  abbrev pub with_workspace :
      Answers
      → ℕ
      → Text
      → Uuid
      → World is_uuid coll
      → Result Error Workspace
      → Result AppError Workspace × World is_uuid coll
  with_workspace ans joined g by s (err e) = (err (of_domain e), delete_group ans g s)
  with_workspace ans joined g by s (ok w) =
      with_store ans joined g w by s (save is_uuid coll ans.save_fails s.store w)

  -- The rest behind CreateGroup.
  abbrev pub with_group :
      Answers
      → Env
      → ℕ
      → Text
      → Text
      → Uuid
      → World is_uuid coll
      → Option Text
      → Result AppError Workspace × World is_uuid coll
  with_group ans env joined name description by s none = (err keycloak_group_creation_failed, s)
  with_group ans env joined name description by s (some g) =
      with_workspace ans joined g by (record s { groups = g ∷ s.groups })
        (new_workspace env name description g by)

  -- Execute behind the validation
  abbrev pub created_if :
      Answers
      → Env
      → ℕ
      → Text
      → Text
      → Uuid
      → World is_uuid coll
      → Result AppError (Unit {0})
      → Result AppError Workspace × World is_uuid coll
  created_if ans env joined name description by s (err e) = (err e, s)
  created_if ans env joined name description by s (ok _) =
      with_group ans env joined name description by s ans.new_group

  -- Execute of CreateWorkspaceUseCase: `joined` is the clock at NewMember.
  unfoldable pub create_workspace :
      Answers
      → Env
      → ℕ
      → Text
      → Text
      → Uuid
      → World is_uuid coll
      → Result AppError Workspace × World is_uuid coll
  create_workspace ans env joined name description by s =
      created_if ans env joined name description by s
        (fail_if ans.context_ended context_ended >> validate_create name by)
