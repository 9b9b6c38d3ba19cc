-- ===== src/Access/Granting.antt =====
-- Who enters a workspace: WorkspaceAccess of internal/middleware/workspace.go over the RealWorkspaceAccessChecker.
use flowra.Base.{
  Text, Uuid, text, is_empty, Bool, true, false, ◌&&◌, some, Option-cases, [], ◌≡◌, ◌↔◌, refl, ◌∷◌,
  List, contains, ◌⊎◌, arith, inl, inr, ok, err, Result-cases, Bool-cases, ◌≢◌,
}
use mathlib.Core.Path.{subst}
use flowra.Workspace.Invite.{Workspace}
use flowra.Errs.{Error}
use flowra.Workspace.Members.{Member}
use flowra.Workspace.Documents.{WorkspaceDocument, document_to_workspace}
use flowra.Workspace.Repository.{Collection, World, find_workspace}
use flowra.Access.Roles.{role_text}
use flowra.Access.Service.{Faults, find_member, get_member}
use flowra.Access.Middleware.{
  Config, Request, Granted, workspace_exists, get_membership, lacks_role, entered_by_admin,
  entered_by_member, workspace_access,
}

lacks_role_iff :
    (qs : List Text) (r : Text) → (lacks_role qs r ≡ false) ↔ ((qs ≡ []) ⊎ (contains qs r ≡ true))
lacks_role_iff [] r = (λ h. inl refl, λ p. refl)
lacks_role_iff (q ∷ qs) r = (λ h. inr (ground arith), λ p. ground arith)

module _ (is_uuid : Text → Bool) (coll : Collection) where
  open coll use {State, find_by_id}

  -- The stored workspace that a request names.
  pub record Names (req : Request) (s : World is_uuid coll) (ws : Uuid) (w : Workspace)
      : Type 0 where
    pub names : req.param (text "workspace_id") ≡ ws
    pub filled : is_empty ws ≡ false
    pub parsed : is_uuid ws ≡ true
    pub document : WorkspaceDocument
    pub kept : find_by_id s.store ws ≡ some document
    pub readable : document_to_workspace is_uuid document ≡ ok w

  -- Who may enter, and with what: a system administrator where the routes let him, and a member who has
  -- one of the roles, where there are any.
  pub data MayEnter (c : Config) (req : Request) (s : World is_uuid coll) : Granted → Type 0 where
    by_admin :
        (ws : Uuid) (w : Workspace)
        → Names req s ws w
        → (c.allow_system_admin && req.is_system_admin) ≡ true
        → MayEnter c req s
            (record { workspace_id = ws; workspace_name = []; workspace_role = text "admin" })
    by_member :
        (ws : Uuid) (w : Workspace) (m : Member)
        → Names req s ws w
        → (c.allow_system_admin && req.is_system_admin) ≡ false
        → is_empty req.user ≡ false
        → find_member s.members ws req.user ≡ some m
        → (c.required_roles ≡ []) ⊎ (contains c.required_roles (role_text m.role) ≡ true)
        → MayEnter c req s (record {
          workspace_id = ws;
          workspace_name = w.name;
          workspace_role = role_text m.role;
        })

  let_in :
      (c : Config) (f : Faults) (req : Request) (s : World is_uuid coll) (g : Granted)
      → f.find_workspace_fails ≡ false
      → f.get_member_fails 0 ≡ false
      → MayEnter c req s g
      → workspace_access is_uuid coll c f req s ≡ ok g
  unfolding workspace_access entered_by_admin entered_by_member workspace_exists get_membership
      find_workspace get_member
  let_in c f req s g a b (by_admin ws w n k) =
      ground (arith, n.names, n.filled, n.parsed, n.kept, n.readable)
  let_in c f req s g a b (by_member ws w m n k e h l) = ground (
    arith,
    (lacks_role_iff c.required_roles (role_text m.role)).1 l,
    n.names,
    n.filled,
    n.parsed,
    n.kept,
    n.readable,
  )

  named :
      (req : Request) (s : World is_uuid coll) (w : Workspace)
      → is_uuid (req.param (text "workspace_id")) ≡ true
      → find_workspace is_uuid coll false s.store (req.param (text "workspace_id")) ≡ ok w
      → Names req s (req.param (text "workspace_id")) w
  unfolding find_workspace
  named req s w u h = elim (Option-cases (find_by_id s.store (req.param (text "workspace_id")))) [
    | inl p ↦ ground arith
    | inr (d, p) ↦ record {
      names = refl;
      filled = ground arith;
      parsed = u;
      document = d;
      kept = p;
      readable = ground arith;
    }
  ]

  admin_in :
      (c : Config) (f : Faults) (req : Request) (s : World is_uuid coll) (g : Granted)
      (w : Workspace)
      → (c.allow_system_admin && req.is_system_admin) ≡ true
      → Names req s (req.param (text "workspace_id")) w
      → workspace_access is_uuid coll c f req s ≡ ok g
      → MayEnter c req s g
  unfolding workspace_access entered_by_admin
  admin_in c f req s g w k n h =
      subst (MayEnter c req s) (ground arith) (by_admin (req.param (text "workspace_id")) w n k)

  member_in :
      (c : Config) (f : Faults) (req : Request) (s : World is_uuid coll) (g : Granted)
      (w : Workspace)
      → (c.allow_system_admin && req.is_system_admin) ≡ false
      → find_workspace is_uuid coll f.find_workspace_fails s.store (req.param (text "workspace_id"))
        ≡ ok w
      → Names req s (req.param (text "workspace_id")) w
      → workspace_access is_uuid coll c f req s ≡ ok g
      → MayEnter c req s g
  unfolding workspace_access entered_by_member get_membership get_member
  member_in c f req s g w k q n h =
      elim (Option-cases (find_member s.members (req.param (text "workspace_id")) req.user)) [
        | inl p ↦ ground arith
        | inr (m, p) ↦ subst (MayEnter c req s) (ground arith) (
            by_member (req.param (text "workspace_id")) w m n k (ground arith) p
              ((lacks_role_iff c.required_roles (role_text m.role)).0 (ground arith)))
      ]

  access_uuid :
      (c : Config) (f : Faults) (req : Request) (s : World is_uuid coll) (g : Granted)
      → workspace_access is_uuid coll c f req s ≡ ok g
      → is_uuid (req.param (text "workspace_id")) ≡ true
  unfolding workspace_access
  access_uuid c f req s g h = ground arith

  access_unread :
      (c : Config) (f : Faults) (req : Request) (s : World is_uuid coll) (g : Granted) {e : Error}
      → find_workspace is_uuid coll f.find_workspace_fails s.store (req.param (text "workspace_id"))
        ≡ err e
      → workspace_access is_uuid coll c f req s ≢ ok g
  unfolding workspace_access entered_by_admin entered_by_member workspace_exists get_membership
  access_unread c f req s g p h = ground arith

  may_enter :
      (c : Config) (f : Faults) (req : Request) (s : World is_uuid coll) (g : Granted)
      → f.find_workspace_fails ≡ false
      → workspace_access is_uuid coll c f req s ≡ ok g
      → MayEnter c req s g
  may_enter c f req s g a h =
      let id = req.param (text "workspace_id") in
      elim (Result-cases (find_workspace is_uuid coll f.find_workspace_fails s.store id)) [
        | inl (w, q) ↦
            let n =
              named req s w (access_uuid c f req s g h)
                (subst (λ b. find_workspace is_uuid coll b s.store id ≡ ok w) a q) in
            elim (Bool-cases (c.allow_system_admin && req.is_system_admin)) [
              | inl k ↦ admin_in c f req s g w k n h
              | inr k ↦ member_in c f req s g w k q n h
            ]
        | inr (e, q) ↦ absurd (access_unread c f req s g q h)
      ]

  -- While the database answers, WorkspaceAccess calls the handler exactly for those who may enter the workspace that
  -- the request names, and sets in the context what they may enter with.
  pub workspace_access_iff :
      (c : Config) (f : Faults) (req : Request) (s : World is_uuid coll) (g : Granted)
      → f.find_workspace_fails ≡ false
      → f.get_member_fails 0 ≡ false
      → (workspace_access is_uuid coll c f req s ≡ ok g) ↔ MayEnter c req s g
  workspace_access_iff c f req s g a b = (may_enter c f req s g a, let_in c f req s g a b)
