-- ===== src/Workspace/Inviting.antt =====
-- An invitation from its creation to its first use: create_invite.go and accept_invite.go of
-- internal/application/workspace, over the repository of the workspaces.
use flowra.Base.{
  ℕ, ◌+◌, ◌≤◌, ℤ, pos, negsuc, Text, Uuid, same_refl, is_empty, Bool, true, false, ◌&&◌, Option,
  none, some, List, [], ◌∷◌, ◌++◌, ◌≡◌, refl, ap, sym, ◌∙◌, inl, inr, arith, map, keep, ok,
  Result-cases,
}
use mathlib.Core.Path.{subst}
use mathlib.Core.List.{map-append}
use flowra.Workspace.Invite.{
  Invite, Workspace, Env, is_negative, limit, new_invite, use_invite, is_valid,
}
use flowra.Workspace.Invite
use flowra.Workspace.Documents.{
  kept_time, kept_invite, kept_workspace, kept-workspace_to_document, has_token-kept, has_token,
  InviteDocument, WorkspaceDocument, invite_to_document, workspace_to_document, document_to_invite,
  documents_to_invites, document_to_workspace, has_uuids,
  document_to_workspace-workspace_to_document,
}
use flowra.Workspace.Repository.{
  Collection, Answers, World, find_workspace, token_in, find_invite, save,
}
use flowra.Workspace.Accept.{accepted, accept_invite}
use flowra.Workspace.Accepting.{find_workspace_lem, save-put}
use flowra.Workspace.Manage.{create_invite, get_expires_at, get_max_uses}

-- Nothing that the use case calls fails.
pub record IsWell (ans : Answers) : Type 0 where
  pub in_time : ans.context_ended ≡ false
  pub finds_invite : ans.find_invite_fails ≡ false
  pub finds_workspace : ans.find_workspace_fails ≡ false
  pub saves : ans.save_fails ≡ false
  pub adds_user : ans.add_user_fails ≡ false

-- What CreateInvite makes.
create_invite_lem :
    (env : Env) (by : Uuid) (expires : ℕ) (uses : ℤ) (w v : Workspace) (i : Invite)
    → Invite.create_invite env by expires uses w ≡ ok (v, i)
    → (v ≡ record w { invites = w.invites ++ i ∷ []; updated_at = env.updated_at })
      × (i ≡ record {
        id = env.new_id;
        workspace_id = w.id;
        token = env.new_token;
        created_by = by;
        created_at = env.created_at;
        expires_at = expires;
        max_uses = uses;
        used_count = 0;
        is_revoked = false;
      })
      × (is_negative uses ≡ false)
unfolding flowra.Workspace.Invite.create_invite new_invite
create_invite_lem env by expires uses w v i h = ground arith

limit-unused : (m : ℤ) → is_negative m ≡ false → limit m 0 ≡ false
limit-unused (pos m) h = ground arith
limit-unused (negsuc m) h = cc

has_token-last :
    (is : List Invite) (i : Invite)
    → has_token (map invite_to_document (is ++ i ∷ [])) i.token ≡ true
unfolding has_token
has_token-last [] i = ground (arith, same_refl i.token)
has_token-last (j ∷ is) i = ground (arith, has_token-last is i)

module _ (is_uuid : Text → Bool) where
  has_token-read :
      (ds : List InviteDocument) (t : Text)
      → has_token ds t ≡ false
      → has_token (map invite_to_document (documents_to_invites is_uuid ds)) t ≡ false
  unfolding has_token documents_to_invites document_to_invite
  has_token-read [] t h = refl
  has_token-read (d ∷ ds) t h = ground (arith, has_token-read ds t)

  token_in-last :
      (is : List Invite) (i : Invite)
      → has_token (map invite_to_document is) i.token ≡ false
      → has_uuids is_uuid i ≡ true
      → (coll : Collection)
      → token_in is_uuid coll (map invite_to_document (is ++ i ∷ [])) i.token ≡ ok i
  unfolding has_token token_in document_to_invite
  token_in-last [] i h u coll = ground (arith, same_refl i.token)
  token_in-last (j ∷ is) i h u coll = ground (arith, token_in-last is i)

  read_lem :
      (d : WorkspaceDocument) (w : Workspace)
      → document_to_workspace is_uuid d ≡ ok w
      → ((is_uuid w.id && is_uuid w.created_by) ≡ true)
        × (w.invites ≡ documents_to_invites is_uuid d.invites)
  unfolding document_to_workspace
  read_lem d w h = ground arith

module _ (is_uuid : Text → Bool) (coll : Collection) where
  open coll use {State, find_by_id, find_by_token, put, find-put, token-none, token-put}

  create_invite-steps :
      (ans : Answers) (env : Env) (now later : ℕ) (id : Uuid) (expires : Option ℕ) (uses : Option ℤ)
      (by : Uuid) (s t : State) (i : Invite)
      → create_invite is_uuid coll ans env now later id expires uses by s ≡ ok (i, t)
      → (w v : Workspace) × (is_empty by ≡ false)
        × (find_workspace is_uuid coll ans.find_workspace_fails s id ≡ ok w)
        × (Invite.create_invite env by (get_expires_at later expires) (get_max_uses uses) w
            ≡ ok (v, i))
        × (save is_uuid coll ans.save_fails s v ≡ ok t)
  unfolding create_invite
  create_invite-steps ans env now later id expires uses by s t i h =
      elim (Result-cases (find_workspace is_uuid coll ans.find_workspace_fails s id)) [
        | inl (w, p) ↦
            elim (Result-cases
              (Invite.create_invite env by (get_expires_at later expires) (get_max_uses uses) w)) [
                | inl ((v, j), q) ↦ (w, v, ground arith, p, ground arith, ground arith)
                | inr (e, q) ↦ ground arith
              ]
        | inr (e, p) ↦ ground arith
      ]

  -- The invitation of a workspace is found by its token, where no other has it.
  find_invite-last :
      (s t : State) (v : Workspace) (is : List Invite) (i : Invite)
      → v.invites ≡ is ++ i ∷ []
      → t ≡ put s v.id (workspace_to_document v)
      → find_by_token s i.token ≡ none
      → has_token (map invite_to_document is) i.token ≡ false
      → has_uuids is_uuid i ≡ true
      → is_empty i.token ≡ false
      → find_invite is_uuid coll false t i.token ≡ ok (kept_invite i)
  unfolding find_invite
  find_invite-last s t v is i listed stored fresh others u named =
      let others' = has_token-kept is i.token ∙ others in
      let listed' = ap (map kept_invite) listed ∙ map-append kept_invite is (i ∷ []) in
      let there : has_token (workspace_to_document v).invites i.token ≡ true =
        ap (λ x. has_token (map invite_to_document x) i.token) listed ∙ has_token-last is i in
      let found : find_by_token t i.token ≡ some (workspace_to_document (kept_workspace v)) =
        ap (λ x. find_by_token x i.token) stored
        ∙ token-put s v.id i.token (workspace_to_document v) fresh there
        ∙ ap some (kept-workspace_to_document v) in
      rw (named, found)
        (ap (λ x. token_in is_uuid coll (map invite_to_document x) i.token) listed'
          ∙ token_in-last is_uuid (map kept_invite is) (kept_invite i) others' u coll)

  -- A saved workspace as it is read back.
  abbrev readable_part : Workspace → Workspace
  readable_part v = record (kept_workspace v) {
    invites = keep (has_uuids is_uuid) (kept_workspace v).invites;
  }

  -- A saved workspace is read back at the precision of the database, less the invitations with an identifier that is not a UUID.
  find_workspace-put :
      (s t : State) (v : Workspace)
      → t ≡ put s v.id (workspace_to_document v)
      → is_empty v.id ≡ false
      → (is_uuid v.id && is_uuid v.created_by) ≡ true
      → find_workspace is_uuid coll false t v.id ≡ ok (readable_part v)
  unfolding find_workspace
  find_workspace-put s t v stored named u =
      let found : find_by_id t v.id ≡ some (workspace_to_document (kept_workspace v)) =
        ap (λ x. find_by_id x v.id) stored
        ∙ find-put s v.id (workspace_to_document v)
        ∙ ap some (kept-workspace_to_document v) in
      rw (named, found)
        (ground (arith, document_to_workspace-workspace_to_document is_uuid (kept_workspace v)))

  save-named :
      (failing : Bool) (s t : State) (w : Workspace)
      → save is_uuid coll failing s w ≡ ok t
      → is_empty w.id ≡ false
  unfolding save
  save-named failing s t w h = ground arith

  save-well :
      (s : State) (w : Workspace)
      → is_empty w.id ≡ false
      → save is_uuid coll false s w ≡ ok (put s w.id (workspace_to_document w))
  unfolding save
  save-well s w h = rw h refl

  -- An acceptance by its steps.
  accepted-steps :
      (ans : Answers) (now later : ℕ) (token : Text) (user : Uuid) (s t : State) (i j : Invite)
      (w : Workspace)
      → IsWell ans
      → is_empty token ≡ false
      → is_empty user ≡ false
      → find_invite is_uuid coll false s token ≡ ok i
      → is_valid now i ≡ true
      → find_workspace is_uuid coll false s i.workspace_id ≡ ok w
      → use_invite later i ≡ ok j
      → save is_uuid coll false s w ≡ ok t
      → accepted is_uuid coll ans now later token user s ≡ ok (w, t)
  unfolding accepted
  accepted-steps ans now later token user s t i j w well a b c d e f g =
      rw (well.in_time, a, b, well.finds_invite, c, d, well.finds_workspace, e, f, well.saves, g)
        refl

  accept_invite-accepted :
      (ans : Answers) (now later : ℕ) (token : Text) (user : Uuid) (s : World is_uuid coll)
      (t : State) (w : Workspace)
      → IsWell ans
      → accepted is_uuid coll ans now later token user s.store ≡ ok (w, t)
      → (accept_invite is_uuid coll ans now later token user s).0 ≡ ok w
  unfolding accept_invite
  accept_invite-accepted ans now later token user s t w well h = rw (h, well.adds_user) refl

  new_invite-usable :
      (now : ℕ) (i : Invite)
      → i.is_revoked ≡ false
      → i.used_count ≡ 0
      → is_negative i.max_uses ≡ false
      → now ≤ i.expires_at
      → (is_valid now i ≡ true)
        × (use_invite now i ≡ ok (record i { used_count = i.used_count + 1 }))
  unfolding is_valid use_invite
  new_invite-usable now i r c m e = ground (arith, limit-unused i.max_uses m)

  -- An invitation that CreateInvite made can be used: from the store that the use case left, AcceptInvite of its token by
  -- any user succeeds, up to the time at which it expires, cut to milliseconds as the database keeps it, and gives the invitation's workspace. The new token is not
  -- empty and in no stored invitation, the new identity and the creator's are UUIDs, the user is known, and no call on
  -- the database or Keycloak fails in the acceptance.
  pub create_invite-accept_invite :
      (ans : Answers) (env : Env) (now later : ℕ) (id : Uuid) (expires : Option ℕ) (uses : Option ℤ)
      (by : Uuid) (i : Invite) (s t : World is_uuid coll) (ans' : Answers) (now' later' : ℕ)
      (user : Uuid)
      → create_invite is_uuid coll ans env now later id expires uses by s.store ≡ ok (i, t.store)
      → find_by_token s.store env.new_token ≡ none
      → (is_uuid env.new_id && is_uuid by) ≡ true
      → is_empty env.new_token ≡ false
      → IsWell ans'
      → is_empty user ≡ false
      → now' ≤ kept_time i.expires_at
      → later' ≤ kept_time i.expires_at
      → (w : Workspace) × ((accept_invite is_uuid coll ans' now' later' i.token user t).0 ≡ ok w)
        × (w.id ≡ i.workspace_id)
  create_invite-accept_invite ans env now later id expires uses by i s t ans' now' later' user h
        fresh u named well known a b =
      let (w, v, _, p, q, r) =
        create_invite-steps ans env now later id expires uses by s.store t.store i h in
      let (made_v, made_i, m) =
        create_invite_lem env by (get_expires_at later expires) (get_max_uses uses) w v i q in
      let (d, found, read) =
        find_workspace_lem is_uuid coll ans.find_workspace_fails s.store id w p in
      let token_i = ap (λ x. x.token) made_i in
      let fresh_i = ap (find_by_token s.store) token_i ∙ fresh in
      let stored = save-put is_uuid coll ans.save_fails s.store t.store v r in
      let (w_uuids, w_invites) = read_lem is_uuid d w read in
      let others =
        ap (λ x. has_token (map invite_to_document x) i.token) w_invites
        ∙ has_token-read is_uuid d.invites i.token
            (token-none s.store i.token id d fresh_i found) in
      let i_uuids : has_uuids is_uuid i ≡ true =
        subst (λ x. has_uuids is_uuid x ≡ true) (sym made_i) (ground arith) in
      let finding =
        find_invite-last s.store t.store v w.invites i (ap (λ x. x.invites) made_v) stored fresh_i
          others i_uuids (ap is_empty token_i ∙ named) in
      let revoked = ap (λ x. x.is_revoked) made_i in
      let unused = ap (λ x. x.used_count) made_i in
      let limited = ap (λ x. is_negative x.max_uses) made_i ∙ m in
      let (valid, _) = new_invite-usable now' (kept_invite i) revoked unused limited a in
      let (_, used) = new_invite-usable later' (kept_invite i) revoked unused limited b in
      let named_v = save-named ans.save_fails s.store t.store v r in
      let at = ap (λ x. x.workspace_id) made_i ∙ sym (ap (λ x. x.id) made_v) in
      let reading =
        ap (find_workspace is_uuid coll false t.store) at
        ∙ find_workspace-put s.store t.store v stored named_v
            (ap (λ x. is_uuid x.id && is_uuid x.created_by) made_v ∙ w_uuids) in
      let v' : Workspace = readable_part v in
      (
        v',
        accept_invite-accepted ans' now' later' i.token user t
            (put t.store v.id (workspace_to_document v')) v' well
            (accepted-steps ans' now' later' i.token user t.store
              (put t.store v.id (workspace_to_document v')) (kept_invite i)
              (record (kept_invite i) { used_count = i.used_count + 1 }) v' well
              (ap is_empty token_i ∙ named) known finding valid reading used
              (save-well t.store v' named_v)),
        sym at,
      )
