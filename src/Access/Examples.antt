-- ===== src/Access/Examples.antt =====
-- The theorems on access, at the workspace of one owner and one member.
use flowra.Base.{
  Text, text, same, same-sym, contains, false, none, some, List, [], ◌∷◌, ◌≡◌, ◌↔◌, refl, arith,
  err, ok, if◌then◌else◌,
}
use flowra.Workspace.Members.{Member, owner, member}
use flowra.Workspace.Repository.{World}
use flowra.Workspace.Accept.{accept_invite}
use flowra.Workspace.Examples.{
  parses, listed, all_well, a_workspace, a_world, a_world-IsSound, one_accepted,
}
use flowra.Access.Service.{Faults, find_member}
use flowra.Access.Middleware.{Request, Granted, not_workspace_member, workspace_access}
use flowra.Access.Owners.{Call, add_call, remove_call, update_call, owners, run, run-owners}
use flowra.Access.Granting.{MayEnter, workspace_access_iff}
use flowra.Access.Strangers.{IsPlain, accept_invite-stranger}
use flowra.Access.Routing.{routes_config, post_members, serve, IsRefusal, serve-refused}

abbrev calm : Faults
calm = record { find_workspace_fails = false; get_member_fails = λ n. false; write_fails = false }

abbrev ann : Member
ann = record { user_id = text "ann"; workspace_id = text "w1"; role = owner; joined_at = 3 }

abbrev bob : Member
bob = record { user_id = text "bob"; workspace_id = text "w1"; role = member; joined_at = 8 }

abbrev a_team : World parses listed
a_team = record a_world { members = bob ∷ ann ∷ [] }

-- A request of ann for bob, at a path with both names for the workspace.
abbrev for_bob : Request
for_bob = record {
  param = λ n. if same n (text "user_id") then text "bob" else text "w1";
  user = text "ann";
  is_system_admin = false;
  body = some (text "dan", text "admin");
}

-- A request of ann for herself.
abbrev for_ann : Request
for_ann = record for_bob { param = λ n. if same n (text "user_id") then text "ann" else text "w1" }

abbrev some_requests : List Call
some_requests =
    update_call calm for_bob
    ∷ add_call calm 9 for_bob
    ∷ remove_call calm for_bob
    ∷ remove_call calm for_ann
    ∷ []

run-owners_example : owners (run parses listed some_requests a_team).members ≡ owners a_team.members
run-owners_example = run-owners parses listed some_requests a_team

abbrev as_owner : Granted
as_owner = record {
  workspace_id = text "w1";
  workspace_name = text "Flow";
  workspace_role = text "owner";
}

workspace_access_iff_example :
    (workspace_access parses listed routes_config calm for_bob a_team ≡ ok as_owner)
    ↔ MayEnter parses listed routes_config for_bob a_team as_owner
workspace_access_iff_example =
    workspace_access_iff parses listed routes_config calm for_bob a_team as_owner refl refl

abbrev by_bob : Request
by_bob = record for_bob { user = text "bob" }

no_member : find_member a_world.members (text "w1") (text "bob") ≡ none
unfolding find_member
no_member = refl

by_bob-IsPlain : IsPlain parses listed routes_config calm by_bob (text "w1") (text "bob")
unfolding same
by_bob-IsPlain = record {
  to_workspace = refl;
  by_user = refl;
  no_admin = refl;
  finds = refl;
  gets = refl;
}

-- Bob joins ann's workspace by an invitation.
accept_invite-stranger_example :
    workspace_access parses listed routes_config calm by_bob
      (accept_invite parses listed all_well 10 11 (text "t1") (text "bob") a_world).1
    ≡ err not_workspace_member
accept_invite-stranger_example =
    accept_invite-stranger parses listed all_well 10 11 (text "t1") (text "bob") a_world a_workspace
      routes_config calm by_bob a_world-IsSound one_accepted no_member refl by_bob-IsPlain

-- A request at a registered path.
abbrev at_route : Request
at_route = record for_bob { param = λ n. if same n (text "workspace_id") then text "w1" else [] }

at_route_params :
    (name : Text)
    → contains (text "workspace_id" ∷ text "user_id" ∷ []) name ≡ false
    → at_route.param name ≡ []
unfolding contains
at_route_params name h = ground (arith, same-sym name (text "workspace_id"))

serve-refused_example :
    IsRefusal parses listed (serve parses listed post_members calm 9 at_route a_team).0
    × ((serve parses listed post_members calm 9 at_route a_team).1 ≡ a_team)
serve-refused_example =
    serve-refused parses listed post_members calm 9 at_route a_team at_route_params refl
