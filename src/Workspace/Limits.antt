-- ===== src/Workspace/Limits.antt =====
-- An invitation over any sequence of uses and revocations.
use flowra.Base.{
  ℕ, zero, suc, ◌+◌, ◌≤◌, ℤ, pos, negsuc, Uuid, true, false, List, [], ◌∷◌, ◌≡◌, refl, arith,
  Result, ok, err, if◌then◌else◌,
}
use mathlib.Core.Path.{subst, sym}
use flowra.Errs.{Error, invalid_state}
use flowra.Workspace.Invite.{
  Invite, Env, new_invite, is_negative, limit, use_invite, revoke, is_valid,
}

pub data Call : Type 0 where
  -- Use, at an instant
  use_call : ℕ → Call
  revoke_call : Call

unfoldable pub step : Call → Invite → Result Error Invite
step (use_call now) i = use_invite now i
step revoke_call i = revoke i

-- The invitation after a call, which leaves it alone where it fails.
abbrev pub after : Result Error Invite → Invite → Invite
after (ok j) i = j
after (err e) i = i

unfoldable pub run : List Call → Invite → Invite
run [] i = i
run (c ∷ cs) i = run cs (after (step c i) i)

-- 1 for a use that succeeds.
abbrev pub counted : Call → Result Error Invite → ℕ
counted (use_call now) (ok j) = 1
counted _ _ = 0

-- How many of the calls are uses that succeed.
unfoldable pub uses : List Call → Invite → ℕ
uses [] i = 0
uses (c ∷ cs) i = counted c (step c i) + uses cs (after (step c i) i)

-- No more uses than the limit, where there is one.
abbrev pub Within : ℤ → ℕ → Type 0
Within (pos zero) n = Unit
Within (pos (suc m)) n = n ≤ suc m
Within (negsuc m) n = Unit

limit-Within : (m : ℤ) (n : ℕ) → Within m n → limit m n ≡ false → Within m (n + 1)
limit-Within (pos zero) n w h = tt
limit-Within (pos (suc m)) n w h = ground arith
limit-Within (negsuc m) n w h = tt

step-Within :
    (c : Call) (i : Invite)
    → Within i.max_uses i.used_count
    → ((after (step c i) i).used_count ≡ counted c (step c i) + i.used_count)
      × ((after (step c i) i).max_uses ≡ i.max_uses)
      × Within i.max_uses (after (step c i) i).used_count
unfolding step use_invite revoke
step-Within (use_call now) i w = ground (arith, limit-Within i.max_uses i.used_count)
step-Within revoke_call i w = ground arith

run-Within :
    (cs : List Call) (i : Invite)
    → Within i.max_uses i.used_count
    → ((run cs i).used_count ≡ uses cs i + i.used_count) × Within i.max_uses (run cs i).used_count
unfolding run uses
run-Within [] i w = (omega arith, w)
run-Within (c ∷ cs) i w =
    let (n, same_max, v) = step-Within c i w in
    let (m, u) =
      run-Within cs (after (step c i) i)
        (subst (λ k. Within k (after (step c i) i).used_count) (sym same_max) v) in
    (omega (arith, n, m), subst (λ k. Within k (run cs (after (step c i) i)).used_count) same_max u)

new_invite-start :
    (env : Env) (ws by : Uuid) (expires : ℕ) (m : ℤ) (i : Invite)
    → new_invite env ws by expires m ≡ ok i
    → (i.used_count ≡ 0) × (i.max_uses ≡ m) × (is_negative m ≡ false) × (i.is_revoked ≡ false)
unfolding new_invite
new_invite-start env ws by expires m i h = ground arith

Within-start : (m : ℤ) → Within m 0
Within-start (pos zero) = tt
Within-start (pos (suc m)) = omega arith
Within-start (negsuc m) = tt

subst-Within : (m k : ℤ) (n u : ℕ) → n ≡ u → k ≡ m → Within k n → Within m u
subst-Within m k n u p q w = subst (λ j. Within j u) q (subst (λ l. Within k l) p w)

-- Whatever uses and revocations are tried on a new invitation, in any order and at any times, its counter
-- is the number of uses that succeeded, and where a limit was set that number does not exceed it.
pub new_invite-uses :
    (env : Env) (ws by : Uuid) (expires : ℕ) (m : ℤ) (i : Invite) (cs : List Call)
    → new_invite env ws by expires m ≡ ok i
    → ((run cs i).used_count ≡ uses cs i) × Within m (uses cs i)
new_invite-uses env ws by expires m i cs h =
    let (zero_uses, same_max, _, _) = new_invite-start env ws by expires m i h in
    let (n, w) =
      run-Within cs i
        (subst (λ k. Within i.max_uses k) (sym zero_uses) (Within-start i.max_uses)) in
    (
      omega (arith, n, zero_uses),
      subst-Within m i.max_uses (run cs i).used_count (uses cs i) (omega (arith, n, zero_uses))
          same_max w,
    )

-- A revoked invitation stays revoked, and no use of it succeeds, whatever is tried on it.
pub run-revoked :
    (cs : List Call) (i : Invite) → i.is_revoked ≡ true → (uses cs i ≡ 0) × (run cs i ≡ i)
unfolding run uses step use_invite revoke
run-revoked [] i h = (refl, refl)
run-revoked (use_call now ∷ cs) i h = ground (arith, run-revoked cs i h)
run-revoked (revoke_call ∷ cs) i h = ground (arith, run-revoked cs i h)

-- At one instant, Use succeeds on exactly the invitations that IsValid accepts, where it adds one to the
-- counter and changes nothing else; on the others it fails with ErrInvalidState.
pub use_invite-is_valid :
    (now : ℕ) (i : Invite)
    → use_invite now i ≡ (
        if is_valid now i
        then ok (record i { used_count = i.used_count + 1 })
        else err invalid_state)
unfolding use_invite is_valid
use_invite-is_valid now i = ground arith
