-- ===== src/Access/Routing.antt =====
-- The routes of the members as cmd/api/routes.go registers them, in the group of
-- internal/infrastructure/httpserver/router.go whose path is "/workspaces/:workspace_id".
use flowra.Base.{
  ℕ, Text, text, is_empty, contains, same, Bool, true, false, List, [], ◌∷◌, ◌≡◌, refl, arith,
  Result, ok, err, ◌>>=◌, if-elim, if◌then◌else◌, sym,
}
use mathlib.Core.Path.{subst}
use flowra.Workspace.Repository.{Collection, World}
use flowra.Access.Service.{Faults}
use flowra.Access.Middleware.{Config, Request, Denial, workspace_access, require_workspace_admin}
use flowra.Access.Handlers.{
  Reply, unauthorized, invalid_workspace_id, addressed, targeted, handle_add_member,
  handle_remove_member, handle_update_member_role,
}

-- WorkspaceConfig of SetupRoutes
abbrev pub routes_config : Config
routes_config = record { required_roles = []; allow_system_admin = true }

-- The names of the parameters of the three paths.
abbrev pub route_params : List Text
route_params = text "workspace_id" ∷ text "user_id" ∷ []

-- The three routes.
pub data Route : Type 0 where
  post_members delete_member put_role : Route

-- What a request is answered with: by a middleware or by the handler.
pub data Served : Type 0 where
  denied : Denial → Served
  replied : Reply → Served

module _ (is_uuid : Text → Bool) (coll : Collection) where
  unfoldable pub handler_of :
      Route → Faults → ℕ → Request → World is_uuid coll → Reply × World is_uuid coll
  handler_of post_members f now req s = handle_add_member is_uuid coll f now req s
  handler_of delete_member f now req s = handle_remove_member is_uuid coll f req s
  handler_of put_role f now req s = handle_update_member_role is_uuid coll f req s

  -- What the middlewares let through is answered by the handler.
  abbrev pub answered_by :
      World is_uuid coll
      → Reply × World is_uuid coll
      → Result Denial (Unit {0})
      → Served × World is_uuid coll
  answered_by s r (err d) = (denied d, s)
  answered_by s r (ok _) = (replied r.0, r.1)

  -- A request to one of the routes: WorkspaceAccess, RequireWorkspaceAdmin and the handler.
  unfoldable pub serve :
      Route → Faults → ℕ → Request → World is_uuid coll → Served × World is_uuid coll
  serve route f now req s =
      answered_by s (handler_of route f now req s)
        (workspace_access is_uuid coll routes_config f req s >>= require_workspace_admin)

  -- An answer that refuses a request as it stands.
  pub data IsRefusal : Served → Type 0 where
    by_middleware : (d : Denial) → IsRefusal (denied d)
    no_user : IsRefusal (replied unauthorized)
    no_workspace : IsRefusal (replied invalid_workspace_id)

  -- The handlers ask for "id".
  module _ (req : Request) (no_id : req.param (text "id") ≡ []) (no_uuid : is_uuid [] ≡ false) where
    abbrev unaddressed : Reply
    unaddressed = if is_empty req.user then unauthorized else invalid_workspace_id

    handler_of-unaddressed :
        (route : Route) (f : Faults) (now : ℕ) (s : World is_uuid coll)
        → handler_of route f now req s ≡ (unaddressed, s)
    unfolding handler_of handle_add_member handle_remove_member handle_update_member_role addressed
        targeted
    handler_of-unaddressed post_members f now s = ground arith
    handler_of-unaddressed delete_member f now s = ground arith
    handler_of-unaddressed put_role f now s = ground arith

    unaddressed-IsRefusal : IsRefusal (replied unaddressed)
    unaddressed-IsRefusal =
        if-elim (λ r. IsRefusal (replied r)) (is_empty req.user) unauthorized invalid_workspace_id
          (λ _. no_user) (λ _. no_workspace)

  answered_by-IsRefusal :
      (a : Reply) (s : World is_uuid coll)
      → IsRefusal (replied a)
      → (m : Result Denial (Unit {0}))
      → IsRefusal (answered_by s (a, s) m).0 × ((answered_by s (a, s) m).1 ≡ s)
  answered_by-IsRefusal a s r (ok _) = (r, refl)
  answered_by-IsRefusal a s r (err d) = (by_middleware d, refl)

  -- Where c.Param answers with "" for every name that the route does not have and "" is no UUID, every
  -- request to add a member, to remove one or to change a role is refused and changes nothing, whoever sends it:
  -- the handlers ask for the parameter "id", and the paths name it "workspace_id".
  pub serve-refused :
      (route : Route) (f : Faults) (now : ℕ) (req : Request) (s : World is_uuid coll)
      → ((name : Text) → contains route_params name ≡ false → req.param name ≡ [])
      → is_uuid [] ≡ false
      → IsRefusal (serve route f now req s).0 × ((serve route f now req s).1 ≡ s)
  unfolding serve
  serve-refused route f now req s params no_uuid =
      let no_id : req.param (text "id") ≡ [] =
        params (text "id") (unfold contains in unfold same in refl) in
      let m = workspace_access is_uuid coll routes_config f req s >>= require_workspace_admin in
      let q = handler_of-unaddressed req no_id no_uuid route f now s in
      subst (λ r. IsRefusal (answered_by s r m).0 × ((answered_by s r m).1 ≡ s)) (sym q)
        (answered_by-IsRefusal (unaddressed req no_id no_uuid) s
          (unaddressed-IsRefusal req no_id no_uuid) m)
