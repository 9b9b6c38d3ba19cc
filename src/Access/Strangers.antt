-- ===== src/Access/Strangers.antt =====
-- What an accepted invitation is worth to who accepted it: internal/application/workspace/accept_invite.go against
-- internal/middleware/workspace.go.
use flowra.Base.{
  ℕ, Text, Uuid, text, is_empty, Bool, true, false, ◌&&◌, none, ◌≡◌, sym, ap, ◌∙◌, arith, ok, err,
}
use mathlib.Core.Path.{subst}
use flowra.Workspace.Invite.{Workspace}
use flowra.Workspace.Repository.{Collection, Answers, World, find_workspace}
use flowra.Workspace.Accept.{accept_invite}
use flowra.Workspace.Accepting.{
  IsSound, find_workspace_lem, document_to_workspace-id, accepted_lem, accepted-user,
  accepted-found, accept_invite_lem, accept_invite-ok,
}
use flowra.Access.Service.{Faults, find_member, get_member}
use flowra.Access.Middleware.{
  Config, Request, not_workspace_member, entered_by_member, get_membership, workspace_access,
}

module _ (is_uuid : Text → Bool) (coll : Collection) where
  open coll use {State}

  -- A request of who does not pass as a system administrator, to the workspace, while the database answers.
  pub record IsPlain (c : Config) (f : Faults) (req : Request) (ws u : Uuid) : Type 0 where
    pub to_workspace : req.param (text "workspace_id") ≡ ws
    pub by_user : req.user ≡ u
    pub no_admin : (c.allow_system_admin && req.is_system_admin) ≡ false
    pub finds : f.find_workspace_fails ≡ false
    pub gets : f.get_member_fails 0 ≡ false

  stranger_refused :
      (c : Config) (f : Faults) (req : Request) (s : World is_uuid coll) (ws u : Uuid)
      (w : Workspace)
      → IsPlain c f req ws u
      → is_uuid ws ≡ true
      → is_empty u ≡ false
      → find_workspace is_uuid coll false s.store ws ≡ ok w
      → find_member s.members ws u ≡ none
      → workspace_access is_uuid coll c f req s ≡ err not_workspace_member
  unfolding workspace_access entered_by_member get_membership get_member find_workspace
  stranger_refused c f req s ws u w p i e h n =
      ground (arith, p.to_workspace, p.by_user, p.no_admin, p.finds, p.gets)

  found_again :
      (failing : Bool) (s : State) (id : Uuid) (w : Workspace)
      → find_workspace is_uuid coll failing s id ≡ ok w
      → find_workspace is_uuid coll false s id ≡ ok w
  unfolding find_workspace
  found_again failing s id w h = ground arith

  accept_invite-members :
      (ans : Answers) (now later : ℕ) (token : Text) (u : Uuid) (s : World is_uuid coll)
      → (accept_invite is_uuid coll ans now later token u s).1.members ≡ s.members
  unfolding accept_invite
  accept_invite-members ans now later token u s = ground arith

  -- Who was no member of a workspace of a sound collection and joins it by an invitation, with success,
  -- is refused by WorkspaceAccess afterwards, as no member: the acceptance adds the user to the group of
  -- Keycloak and to no member list. Hypotheses: the workspace's identifier is a UUID, the request names that
  -- workspace and comes from that user, who does not pass as a system administrator, and the database answers.
  pub accept_invite-stranger :
      (ans : Answers) (now later : ℕ) (token : Text) (u : Uuid) (s : World is_uuid coll)
      (w : Workspace) (c : Config) (f : Faults) (req : Request)
      → IsSound is_uuid coll s.store
      → (accept_invite is_uuid coll ans now later token u s).0 ≡ ok w
      → find_member s.members w.id u ≡ none
      → is_uuid w.id ≡ true
      → IsPlain c f req w.id u
      → workspace_access is_uuid coll c f req (accept_invite is_uuid coll ans now later token u s).1
        ≡ err not_workspace_member
  accept_invite-stranger ans now later token u s w c f req sound h n i p =
      let after = (accept_invite is_uuid coll ans now later token u s).1 in
      let (t, a, k) = accept_invite-ok is_uuid coll ans now later token u s w h in
      let (_, st) = accept_invite_lem is_uuid coll ans now later token u s t w a k in
      let same_store = st ∙ accepted-found is_uuid coll ans now later token u s.store t w sound k in
      let (id, q, _) = accepted_lem is_uuid coll ans now later token u s.store t w k in
      let (d, by_id, read) =
        find_workspace_lem is_uuid coll ans.find_workspace_fails s.store id w q in
      let same_id = document_to_workspace-id is_uuid coll d w read ∙ sound.keyed id d by_id in
      let again = found_again ans.find_workspace_fails s.store id w q in
      stranger_refused c f req after w.id u w p i
        (accepted-user is_uuid coll ans now later token u s.store t w k)
        (subst (λ x. find_workspace is_uuid coll false x w.id ≡ ok w) (sym same_store)
          (subst (λ x. find_workspace is_uuid coll false s.store x ≡ ok w) (sym same_id) again))
        (ap (λ ms. find_member ms w.id u) (accept_invite-members ans now later token u s) ∙ n)
