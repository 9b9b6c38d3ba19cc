-- ===== src/Message/Deleted.antt =====
-- What may still happen to a deleted message, and reactions that are taken back.
use flowra.Base.{
  ℕ, ◌+◌, Text, Uuid, same, same_refl, Bool, true, false, List, [], ◌∷◌, ◌++◌, ◌≡◌, refl, arith, ok,
  if◌then◌else◌,
}
use mathlib.Core.Path.{subst, sym}
use flowra.Message.Types.{Reaction, Message, new_reaction}
use flowra.Message.Methods.{
  edit_content, delete, has_reaction, without_reaction, add_reaction, remove_reaction,
  add_attachment, count_reactions, get_reaction_count, Call, edit_content_call, delete_call,
  add_reaction_call, remove_reaction_call, add_attachment_call, step, after, run,
}

-- Every member of the first list is one of the second's, in the same order.
pub data Sublist : List Reaction → List Reaction → Type 0 where
  done : Sublist [] []
  skip : {r : Reaction} {rs qs : List Reaction} → Sublist rs qs → Sublist rs (r ∷ qs)
  both : {r : Reaction} {rs qs : List Reaction} → Sublist rs qs → Sublist (r ∷ rs) (r ∷ qs)

Sublist-refl : (rs : List Reaction) → Sublist rs rs
Sublist-refl [] = done
Sublist-refl (r ∷ rs) = both (Sublist-refl rs)

Sublist-trans : {rs qs ps : List Reaction} → Sublist rs qs → Sublist qs ps → Sublist rs ps
Sublist-trans s done = s
Sublist-trans s (skip t) = skip (Sublist-trans s t)
Sublist-trans (skip s) (both t) = skip (Sublist-trans s t)
Sublist-trans (both s) (both t) = both (Sublist-trans s t)

cons_if :
    (b : Bool) (r : Reaction) {rs qs : List Reaction}
    → Sublist rs qs
    → Sublist (if b then r ∷ rs else rs) (r ∷ qs)
cons_if true r s = both s
cons_if false r s = skip s

without_reaction-Sublist :
    (rs : List Reaction) (u : Uuid) (e : Text) → Sublist (without_reaction rs u e) rs
unfolding without_reaction
without_reaction-Sublist [] u e = done
without_reaction-Sublist (r ∷ rs) u e = cons_if _ r (without_reaction-Sublist rs u e)

without_absent :
    (rs : List Reaction) (u : Uuid) (e : Text)
    → has_reaction rs u e ≡ false
    → without_reaction rs u e ≡ rs
unfolding has_reaction without_reaction
without_absent [] u e h = refl
without_absent (r ∷ rs) u e h = ground (arith, without_absent rs u e)

without_reaction-snoc :
    (rs : List Reaction) (r : Reaction)
    → has_reaction rs r.user_id r.emoji_code ≡ false
    → without_reaction (rs ++ r ∷ []) r.user_id r.emoji_code ≡ rs
unfolding has_reaction without_reaction
without_reaction-snoc [] r h = ground (arith, same_refl r.user_id, same_refl r.emoji_code)
without_reaction-snoc (q ∷ rs) r h = ground (arith, without_reaction-snoc rs r)

remove_reaction_lem :
    (u : Uuid) (e : Text) (m : Message)
    → after (remove_reaction u e m) m ≡ record m { reactions = without_reaction m.reactions u e }
unfolding remove_reaction
remove_reaction_lem u e m = ground (arith, without_absent m.reactions u e)

step-deleted :
    (c : Call) (m : Message)
    → m.is_deleted ≡ true
    → (rs : List Reaction) × (after (step c m) m ≡ record m { reactions = rs })
      × Sublist rs m.reactions
unfolding step edit_content delete add_reaction add_attachment
step-deleted (edit_content_call now content by) m h =
    (m.reactions, ground arith, Sublist-refl m.reactions)
step-deleted (delete_call now by) m h = (m.reactions, ground arith, Sublist-refl m.reactions)
step-deleted (add_reaction_call now u e) m h = (m.reactions, ground arith, Sublist-refl m.reactions)
step-deleted (add_attachment_call f n s t) m h =
    (m.reactions, ground arith, Sublist-refl m.reactions)
step-deleted (remove_reaction_call u e) m h = (
  without_reaction m.reactions u e,
  remove_reaction_lem u e m,
  without_reaction-Sublist m.reactions u e,
)

-- Whatever is called on a deleted message, in any order, by anybody, it stays as it is but for its reactions, of which
-- some may be taken back and none comes to it.
pub run-deleted :
    (cs : List Call) (m : Message)
    → m.is_deleted ≡ true
    → (run cs m ≡ record m { reactions = (run cs m).reactions })
      × Sublist (run cs m).reactions m.reactions
unfolding run
run-deleted [] m h = (refl, Sublist-refl m.reactions)
run-deleted (c ∷ cs) m h =
    let (rs, p, s) = step-deleted c m h in
    let (q, t) = run-deleted cs (record m { reactions = rs }) h in
    subst
      (λ n.
        (run cs n ≡ record m { reactions = (run cs n).reactions })
        × Sublist (run cs n).reactions m.reactions)
      (sym p) (q, Sublist-trans t s)

count_reactions-snoc :
    (rs : List Reaction) (r : Reaction) (e : Text)
    → count_reactions (rs ++ r ∷ []) e
      ≡ count_reactions rs e + (if same r.emoji_code e then 1 else 0)
unfolding count_reactions
count_reactions-snoc [] r e = ground arith
count_reactions-snoc (q ∷ rs) r e = ground (arith, count_reactions-snoc rs r e)

add_reaction_lem :
    (now : ℕ) (u : Uuid) (e : Text) (m n : Message)
    → add_reaction now u e m ≡ ok n
    → (has_reaction m.reactions u e ≡ false)
      × (n ≡ record m {
        reactions = m.reactions ++ record { user_id = u; emoji_code = e; added_at = now } ∷ [];
      })
unfolding add_reaction new_reaction
add_reaction_lem now u e m n h = ground arith

has_reaction-last :
    (rs : List Reaction) (r : Reaction) → has_reaction (rs ++ r ∷ []) r.user_id r.emoji_code ≡ true
unfolding has_reaction
has_reaction-last [] r = ground (arith, same_refl r.user_id, same_refl r.emoji_code)
has_reaction-last (q ∷ rs) r = ground (arith, has_reaction-last rs r)

-- Taking back a reaction that was just added gives the message as it was before; in between, GetReactionCount counts
-- one more of its emoji and as many of every other.
pub remove_reaction-add_reaction :
    (now : ℕ) (u : Uuid) (e f : Text) (m n : Message)
    → add_reaction now u e m ≡ ok n
    → (remove_reaction u e n ≡ ok m)
      × (get_reaction_count f n ≡ get_reaction_count f m + (if same e f then 1 else 0))
unfolding remove_reaction
remove_reaction-add_reaction now u e f m n h =
    let (p, q) = add_reaction_lem now u e m n h in
    let r : Reaction = record { user_id = u; emoji_code = e; added_at = now } in
    rw q (
      ground (arith, has_reaction-last m.reactions r, without_reaction-snoc m.reactions r p),
      count_reactions-snoc m.reactions r f,
    )
