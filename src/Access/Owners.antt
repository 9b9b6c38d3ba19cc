-- ===== src/Access/Owners.antt =====
-- What the requests on members do to the owners of workspaces: internal/service/member_service.go behind the handlers
-- of internal/handler/http/workspace_handler.go.
use flowra.Base.{
  ℕ, Text, Uuid, same-sym, Bool, false, Option, none, some, Option-cases, List, [], ◌∷◌, ◌≡◌, refl,
  ◌∙◌, inl, inr, arith, Result, ok, err, ◌>>=◌, Result-cases, chain_ok, keep,
}
use flowra.Workspace.Members.{Role, Member, new_member}
use flowra.Workspace.Repository.{Collection, World, add_member, others}
use flowra.Access.Roles.{is_owner, parse_role}
use flowra.Access.Service.{
  Faults, find_member, delete_one, set_role, get_member, update_member, remove_member,
  add_to_workspace, remove_from_workspace, update_member_role,
}
use flowra.Access.Middleware.{Request}
use flowra.Access.Handlers.{
  Reply, assignable, addressed, targeted, add_requested, remove_requested, update_requested,
  settled, handle_add_member, handle_remove_member, handle_update_member_role,
}

-- The documents of the owners.
abbrev pub owners : List Member → List Member
owners = keep (λ m. is_owner m.role)

owners-delete_one :
    (ms : List Member) (ws u : Uuid) (m : Member)
    → find_member ms ws u ≡ some m
    → is_owner m.role ≡ false
    → owners (delete_one ms ws u) ≡ owners ms
unfolding find_member delete_one
owners-delete_one [] ws u m h o = cc
owners-delete_one (x ∷ ms) ws u m h o = ground (arith, owners-delete_one ms ws u m)

owners-set_role :
    (ms : List Member) (ws u : Uuid) (r : Role) (m : Member)
    → find_member ms ws u ≡ some m
    → is_owner m.role ≡ false
    → is_owner r ≡ false
    → owners (set_role ms ws u r) ≡ owners ms
unfolding find_member set_role
owners-set_role [] ws u r m h o n = cc
owners-set_role (x ∷ ms) ws u r m h o n = ground (arith, owners-set_role ms ws u r m)

others-none :
    (ms : List Member) (ws u : Uuid) (now : ℕ) (r : Role)
    → find_member ms ws u ≡ none
    → others (new_member now u ws r) ms ≡ ms
unfolding find_member others
others-none [] ws u now r h = refl
others-none (x ∷ ms) ws u now r h =
    ground (arith, others-none ms ws u now r, same-sym x.workspace_id ws, same-sym x.user_id u)

remove-owners :
    (f : Faults) (nth : ℕ) (ws u : Uuid) (ms out : List Member)
    → remove_from_workspace f nth ws u ms ≡ ok out
    → owners out ≡ owners ms
unfolding remove_from_workspace get_member remove_member
remove-owners f nth ws u ms out h = elim (Option-cases (find_member ms ws u)) [
  | inl p ↦ ground arith
  | inr (m, p) ↦ ground (arith, owners-delete_one ms ws u m)
]

update-owners :
    (f : Faults) (nth : ℕ) (ws u : Uuid) (r : Role) (ms out : List Member) (x : Member)
    → update_member_role f nth ws u r ms ≡ ok (x, out)
    → owners out ≡ owners ms
unfolding update_member_role get_member update_member
update-owners f nth ws u r ms out x h = elim (Option-cases (find_member ms ws u)) [
  | inl p ↦ ground arith
  | inr (m, p) ↦ ground (arith, owners-set_role ms ws u r m)
]

-- A request of one of the three handlers, with its faults and its clock.
pub data Call : Type 0 where
  add_call : Faults → ℕ → Request → Call
  remove_call : Faults → Request → Call
  update_call : Faults → Request → Call

module _ (is_uuid : Text → Bool) (coll : Collection) where
  add-owners :
      (f : Faults) (nth now : ℕ) (ws u : Uuid) (r : Role) (s t : World is_uuid coll) (x : Member)
      → is_owner r ≡ false
      → add_to_workspace is_uuid coll f nth now ws u r s ≡ ok (x, t)
      → owners t.members ≡ owners s.members
  unfolding add_to_workspace get_member add_member
  add-owners f nth now ws u r s t x o h = elim (Option-cases (find_member s.members ws u)) [
    | inl p ↦ ground (arith, others-none s.members ws u now r p)
    | inr (m, p) ↦ ground arith
  ]

  settled-elim {κ} :
      (P : World is_uuid coll → Type κ) (s : World is_uuid coll)
      (r : Result Reply (Reply × World is_uuid coll))
      → P s
      → ((a : Reply) (t : World is_uuid coll) → r ≡ ok (a, t) → P t)
      → P (settled is_uuid coll s r).1
  settled-elim P s (ok (a, t)) p f = f a t refl
  settled-elim P s (err e) p f = p

  unfoldable pub step : Call → World is_uuid coll → World is_uuid coll
  step (add_call f now req) s = (handle_add_member is_uuid coll f now req s).1
  step (remove_call f req) s = (handle_remove_member is_uuid coll f req s).1
  step (update_call f req) s = (handle_update_member_role is_uuid coll f req s).1

  unfoldable pub run : List Call → World is_uuid coll → World is_uuid coll
  run [] s = s
  run (c ∷ cs) s = run cs (step c s)

  assignable_owner : (o : Option Role) (r : Role) → assignable o ≡ ok r → is_owner r ≡ false
  assignable_owner none r h = cc
  assignable_owner (some q) r h = ground arith

  add_requested-owners :
      (f : Faults) (now : ℕ) (req : Request) (s t : World is_uuid coll) (ws : Uuid) (a : Reply)
      → add_requested is_uuid coll f now req s ws ≡ ok (a, t)
      → owners t.members ≡ owners s.members
  unfolding add_requested
  add_requested-owners f now req s t ws a h = elim (Option-cases req.body) [
    | inl p ↦ ground arith
    | inr ((u, name), p) ↦ elim (Result-cases (assignable (parse_role name))) [
      | inl (r, q) ↦ elim (Result-cases (add_to_workspace is_uuid coll f 2 now ws u r s)) [
        | inl ((x, out), k) ↦
            ground
              (arith, add-owners f 2 now ws u r s out x (assignable_owner (parse_role name) r q) k)
        | inr (e, k) ↦ ground arith
      ]
      | inr (e, q) ↦ ground arith
    ]
  ]

  remove_requested-owners :
      (f : Faults) (req : Request) (s t : World is_uuid coll) (at : Uuid × Uuid) (a : Reply)
      → remove_requested is_uuid coll f req s at ≡ ok (a, t)
      → owners t.members ≡ owners s.members
  unfolding remove_requested
  remove_requested-owners f req s t (ws, u) a h =
      elim (Result-cases (remove_from_workspace f 3 ws u s.members)) [
        | inl (out, k) ↦ ground (arith, remove-owners f 3 ws u s.members out k)
        | inr (e, k) ↦ ground arith
      ]

  update_requested-owners :
      (f : Faults) (req : Request) (s t : World is_uuid coll) (at : Uuid × Uuid) (a : Reply)
      → update_requested is_uuid coll f req s at ≡ ok (a, t)
      → owners t.members ≡ owners s.members
  unfolding update_requested
  update_requested-owners f req s t (ws, u) a h = elim (Option-cases req.body) [
    | inl p ↦ ground arith
    | inr ((_, name), p) ↦ elim (Result-cases (assignable (parse_role name))) [
      | inl (r, q) ↦ elim (Result-cases (update_member_role f 3 ws u r s.members)) [
        | inl ((x, out), k) ↦ ground (arith, update-owners f 3 ws u r s.members out x k)
        | inr (e, k) ↦ ground arith
      ]
      | inr (e, q) ↦ ground arith
    ]
  ]

  step-owners : (c : Call) (s : World is_uuid coll) → owners (step c s).members ≡ owners s.members
  unfolding step handle_add_member handle_remove_member handle_update_member_role
  step-owners (add_call f now req) s =
      settled-elim (λ t. owners t.members ≡ owners s.members) s
        (addressed is_uuid req >>= add_requested is_uuid coll f now req s) refl
        λ a t h.
          let (ws, k, _) =
            chain_ok (addressed is_uuid req) (add_requested is_uuid coll f now req s) h in
          add_requested-owners f now req s t ws a k
  step-owners (remove_call f req) s =
      settled-elim (λ t. owners t.members ≡ owners s.members) s
        (targeted is_uuid req >>= remove_requested is_uuid coll f req s) refl
        λ a t h.
          let (at, k, _) =
            chain_ok (targeted is_uuid req) (remove_requested is_uuid coll f req s) h in
          remove_requested-owners f req s t at a k
  step-owners (update_call f req) s =
      settled-elim (λ t. owners t.members ≡ owners s.members) s
        (targeted is_uuid req >>= update_requested is_uuid coll f req s) refl
        λ a t h.
          let (at, k, _) =
            chain_ok (targeted is_uuid req) (update_requested is_uuid coll f req s) h in
          update_requested-owners f req s t at a k

  -- Whatever requests to add a member, to remove one or to change a role come, by whomever and however the
  -- database fails, the documents of the owners stay as they are: no owner is removed or loses the role, and nobody
  -- becomes one.
  pub run-owners :
      (cs : List Call) (s : World is_uuid coll) → owners (run cs s).members ≡ owners s.members
  unfolding run
  run-owners [] s = refl
  run-owners (c ∷ cs) s = run-owners cs (step c s) ∙ step-owners c s
