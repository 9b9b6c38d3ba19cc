-- ===== src/Workspace/Creating.antt =====
-- What creating a workspace leaves behind: Execute of internal/application/workspace/create_workspace.go.
use flowra.Base.{
  ℕ, ◌≤◌, Text, Uuid, same_refl, Bool, false, Option-cases, some, List, [], ◌∷◌, ◌≡◌, refl, inl,
  inr, arith, ok, err, has_key, without_key,
}
use flowra.UseCase.Commands.{byte_length}
use flowra.Workspace.Invite.{Workspace, Env, new_workspace}
use flowra.Workspace.Members.{owner, new_member}
use flowra.Workspace.Documents.{workspace_to_document, kept_document}
use flowra.Workspace.Repository.{AppError, Collection, Answers, World, save, add_member, others}
use flowra.Workspace.Create.{create_workspace, max_name_length}

without_new :
    (gs : List Text) (g : Text) → has_key (λ h. h) gs g ≡ false → without_key (λ h. h) gs g ≡ gs
without_new [] g h = refl
without_new (k ∷ gs) g h = ground (arith, without_new gs g)

module _ (is_uuid : Text → Bool) (coll : Collection) where
  open coll use {State, find_by_id, find-put}

  -- Where DeleteGroup and AddMember do not fail, and Keycloak gives the new group an identifier that no group
  -- has, a creation that fails, at whatever step, leaves everything as it was.
  pub create_workspace-rollback :
      (ans : Answers) (env : Env) (joined : ℕ) (name description : Text) (by : Uuid)
      (s : World is_uuid coll) (e : AppError)
      → ans.delete_group_fails ≡ false
      → ans.add_member_fails ≡ false
      → ((g : Text) → ans.new_group ≡ some g → has_key (λ h. h) s.groups g ≡ false)
      → (create_workspace is_uuid coll ans env joined name description by s).0 ≡ err e
      → (create_workspace is_uuid coll ans env joined name description by s).1 ≡ s
  unfolding create_workspace new_workspace save add_member
  create_workspace-rollback ans env joined name description by s e d m fresh h =
      elim (Option-cases ans.new_group) [
        | inl p ↦ ground arith
        | inr (g, p) ↦ ground (arith, without_new s.groups g (fresh g p), same_refl g)
      ]

  -- A creation that succeeds leaves the workspace's document stored, with its dates in milliseconds, its creator the only owner among the members
  -- listed by its identifier and his, and its group in Keycloak.
  create_workspace-stored :
      (ans : Answers) (env : Env) (joined : ℕ) (name description : Text) (by : Uuid)
      (s : World is_uuid coll) (w : Workspace)
      → (create_workspace is_uuid coll ans env joined name description by s).0 ≡ ok w
      → (find_by_id
            (create_workspace is_uuid coll ans env joined name description by s).1.store
            w.id
          ≡ some (kept_document (workspace_to_document w)))
        × ((create_workspace is_uuid coll ans env joined name description by s).1.members
            ≡ new_member joined by w.id owner ∷ others (new_member joined by w.id owner) s.members)
        × ((create_workspace is_uuid coll ans env joined name description by s).1.groups
            ≡ w.keycloak_group_id ∷ s.groups)
        × (w.name ≡ name)
        × (byte_length name ≤ max_name_length)
  unfolding create_workspace new_workspace save add_member
  create_workspace-stored ans env joined name description by s w h =
      elim (Option-cases ans.new_group) [
        | inl p ↦ ground arith
        | inr (g, p) ↦ ground (arith, find-put s.store w.id (workspace_to_document w))
      ]
