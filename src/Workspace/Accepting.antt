-- ===== src/Workspace/Accepting.antt =====
-- What accepting an invitation stores: Execute of internal/application/workspace/accept_invite.go over the
-- repository of the workspaces.
use flowra.Base.{
  ℕ, ◌+◌, Text, Uuid, is_empty, Bool, true, false, ◌&&◌, Option-cases, some, List, [], ◌∷◌, ◌≡◌,
  refl, ap, sym, ◌∙◌, inl, inr, arith, map, Result, ok, err, Result-cases, All, length,
}
use mathlib.Core.Path.{subst}
use flowra.Workspace.Invite.{Workspace}
use flowra.Workspace.Documents.{
  InviteDocument, WorkspaceDocument, invite_to_document, workspace_to_document, document_to_invite,
  documents_to_invites, document_to_workspace,
}
use flowra.Workspace.Repository.{Collection, Answers, World, find_workspace, find_invite, save}
use flowra.Workspace.Accept.{accepted, accept_invite}

module _ (is_uuid : Text → Bool) where
  -- The identifiers of a stored invitation are UUIDs.
  abbrev pub IsReadable : InviteDocument → Type 0
  IsReadable d = (is_uuid d.invite_id && is_uuid d.workspace_id && is_uuid d.created_by) ≡ true

  map-documents_to_invites :
      (ds : List InviteDocument)
      → All IsReadable ds
      → map invite_to_document (documents_to_invites is_uuid ds) ≡ ds
  unfolding documents_to_invites document_to_invite
  map-documents_to_invites [] a = refl
  map-documents_to_invites (d ∷ ds) a = ground (arith, map-documents_to_invites ds a.1)

  workspace_to_document-document_to_workspace :
      (d : WorkspaceDocument) (w : Workspace)
      → All IsReadable d.invites
      → document_to_workspace is_uuid d ≡ ok w
      → workspace_to_document w ≡ d
  unfolding document_to_workspace
  workspace_to_document-document_to_workspace d w a h =
      ground (arith, map-documents_to_invites d.invites a)

module _ (is_uuid : Text → Bool) (coll : Collection) where
  open coll use {State, find_by_id, put, put_found}

  pub find_workspace_lem :
      (failing : Bool) (s : State) (id : Uuid) (w : Workspace)
      → find_workspace is_uuid coll failing s id ≡ ok w
      → (d : WorkspaceDocument) × (find_by_id s id ≡ some d)
        × (document_to_workspace is_uuid d ≡ ok w)
  unfolding find_workspace
  find_workspace_lem failing s id w h = elim (Option-cases (find_by_id s id)) [
    | inl p ↦ ground arith
    | inr (d, p) ↦ (d, p, ground arith)
  ]

  pub document_to_workspace-id :
      (d : WorkspaceDocument) (w : Workspace)
      → document_to_workspace is_uuid d ≡ ok w
      → w.id ≡ d.workspace_id
  unfolding document_to_workspace
  document_to_workspace-id d w h = ground arith

  -- Every workspace stands under its own identifier, and its invitations' identifiers are UUIDs.
  pub record IsSound (s : State) : Type 0 where
    pub keyed : (k : Text) (d : WorkspaceDocument) → find_by_id s k ≡ some d → d.workspace_id ≡ k
    pub readable :
        (k : Text) (d : WorkspaceDocument)
        → find_by_id s k ≡ some d
        → All (IsReadable is_uuid) d.invites

  pub save-put :
      (failing : Bool) (s t : State) (w : Workspace)
      → save is_uuid coll failing s w ≡ ok t
      → t ≡ put s w.id (workspace_to_document w)
  unfolding save
  save-put failing s t w h = ground arith

  save-found :
      (failing failing' : Bool) (s t : State) (id : Uuid) (w : Workspace)
      → IsSound s
      → find_workspace is_uuid coll failing s id ≡ ok w
      → save is_uuid coll failing' s w ≡ ok t
      → t ≡ s
  save-found failing failing' s t id w sound h k =
      let (d, p, q) = find_workspace_lem failing s id w h in
      let same_id = document_to_workspace-id d w q ∙ sound.keyed id d p in
      let same_doc =
        workspace_to_document-document_to_workspace is_uuid d w (sound.readable id d p) q in
      save-put failing' s t w k
      ∙ (ap (λ i. put s i (workspace_to_document w)) same_id
          ∙ (ap (λ x. put s id x) same_doc ∙ put_found s id d p))

  -- What an acceptance goes through.
  pub accepted_lem :
      (ans : Answers) (now later : ℕ) (token : Text) (u : Uuid) (s t : State) (w : Workspace)
      → accepted is_uuid coll ans now later token u s ≡ ok (w, t)
      → (id : Uuid) × (find_workspace is_uuid coll ans.find_workspace_fails s id ≡ ok w)
        × (save is_uuid coll ans.save_fails s w ≡ ok t)
  unfolding accepted
  accepted_lem ans now later token u s t w h =
      elim (Result-cases (find_invite is_uuid coll ans.find_invite_fails s token)) [
        | inl (i, p) ↦ (i.workspace_id, ground arith, ground arith)
        | inr (e, p) ↦ ground arith
      ]

  pub accepted-user :
      (ans : Answers) (now later : ℕ) (token : Text) (u : Uuid) (s t : State) (w : Workspace)
      → accepted is_uuid coll ans now later token u s ≡ ok (w, t)
      → is_empty u ≡ false
  unfolding accepted
  accepted-user ans now later token u s t w h = ground arith

  -- An acceptance does not depend on the user, who has to have an identifier.
  accepted_by_other :
      (ans : Answers) (now later : ℕ) (token : Text) (u v : Uuid) (s t : State) (w : Workspace)
      → accepted is_uuid coll ans now later token u s ≡ ok (w, t)
      → is_empty v ≡ false
      → accepted is_uuid coll ans now later token v s ≡ ok (w, t)
  unfolding accepted
  accepted_by_other ans now later token u v s t w h e = ground arith

  pub accepted-found :
      (ans : Answers) (now later : ℕ) (token : Text) (u : Uuid) (s t : State) (w : Workspace)
      → IsSound s
      → accepted is_uuid coll ans now later token u s ≡ ok (w, t)
      → t ≡ s
  accepted-found ans now later token u s t w sound h =
      let (id, p, q) = accepted_lem ans now later token u s t w h in
      save-found ans.find_workspace_fails ans.save_fails s t id w sound p q

  -- 1 for a success.
  abbrev pub counted {ℓ κ} : {E : Type κ} {A : Type ℓ} → Result E A → ℕ
  counted (ok a) = 1
  counted (err e) = 0

  -- One acceptance after another by the listed users, and how many succeed.
  unfoldable pub accept_all :
      Answers → ℕ → ℕ → Text → List Uuid → World is_uuid coll → ℕ × World is_uuid coll
  accept_all ans now later token [] s = (0, s)
  accept_all ans now later token (u ∷ us) s =
      let r = accept_invite is_uuid coll ans now later token u s in
      let rest = accept_all ans now later token us r.1 in (counted r.0 + rest.0, rest.1)

  -- The use case, once its first part succeeds.
  pub accept_invite_lem :
      (ans : Answers) (now later : ℕ) (token : Text) (u : Uuid) (s : World is_uuid coll) (t : State)
      (w : Workspace)
      → ans.add_user_fails ≡ false
      → accepted is_uuid coll ans now later token u s.store ≡ ok (w, t)
      → ((accept_invite is_uuid coll ans now later token u s).0 ≡ ok w)
        × ((accept_invite is_uuid coll ans now later token u s).1.store ≡ t)
  unfolding accept_invite
  accept_invite_lem ans now later token u s t w a h = ground arith

  pub accept_invite-ok :
      (ans : Answers) (now later : ℕ) (token : Text) (u : Uuid) (s : World is_uuid coll)
      (w : Workspace)
      → (accept_invite is_uuid coll ans now later token u s).0 ≡ ok w
      → (t : State) × (ans.add_user_fails ≡ false)
        × (accepted is_uuid coll ans now later token u s.store ≡ ok (w, t))
  unfolding accept_invite
  accept_invite-ok ans now later token u s w h =
      elim (Result-cases (accepted is_uuid coll ans now later token u s.store)) [
        | inl ((x, t), p) ↦ (t, ground arith, ground arith)
        | inr (e, p) ↦ ground arith
      ]

  accept_again :
      (ans : Answers) (now later : ℕ) (token : Text) (u : Uuid) (us : List Uuid)
      (s : World is_uuid coll) (w : Workspace)
      → IsSound s.store
      → ans.add_user_fails ≡ false
      → accepted is_uuid coll ans now later token u s.store ≡ ok (w, s.store)
      → All (λ v. is_empty v ≡ false) us
      → ((accept_all ans now later token us s).0 ≡ length us)
        × ((accept_all ans now later token us s).1.store ≡ s.store)
  unfolding accept_all
  accept_again ans now later token u [] s w sound a h e = (refl, refl)
  accept_again ans now later token u (v ∷ us) s w sound a h e =
      let by_v = accepted_by_other ans now later token u v s.store s.store w h e.0 in
      let (r, q) = accept_invite_lem ans now later token v s s.store w a by_v in
      let (n, st) =
        accept_again ans now later token u us (accept_invite is_uuid coll ans now later token v s).1
          w (subst IsSound (sym q) sound) a
          (subst (λ x. accepted is_uuid coll ans now later token u x ≡ ok (w, x)) (sym q) h) e.1 in
      (omega (arith, ap counted r, n), st ∙ q)

  -- Over a sound collection, where one user's acceptance of a token succeeds, any number of users behind him
  -- succeed with it at the same time, with the same answers of the database and Keycloak, and none of
  -- these acceptances changes what is stored: the uses are not counted, whatever the invitation's limit.
  pub accept_invite-unlimited :
      (ans : Answers) (now later : ℕ) (token : Text) (u : Uuid) (us : List Uuid)
      (s : World is_uuid coll) (w : Workspace)
      → IsSound s.store
      → (accept_invite is_uuid coll ans now later token u s).0 ≡ ok w
      → All (λ v. is_empty v ≡ false) us
      → ((accept_all ans now later token (u ∷ us) s).0 ≡ length (u ∷ us))
        × ((accept_all ans now later token (u ∷ us) s).1.store ≡ s.store)
  accept_invite-unlimited ans now later token u us s w sound h e =
      let (t, a, p) = accept_invite-ok ans now later token u s w h in
      let kept = accepted-found ans now later token u s.store t w sound p in
      accept_again ans now later token u (u ∷ us) s w sound a
        (subst (λ x. accepted is_uuid coll ans now later token u s.store ≡ ok (w, x)) kept p)
        (accepted-user ans now later token u s.store t w p, e)
