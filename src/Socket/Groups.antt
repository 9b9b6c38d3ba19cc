-- ===== src/Socket/Groups.antt =====
-- The maps of internal/infrastructure/websocket/hub.go from an identifier to a set of clients: a client is told by a
-- number, as by its pointer, a set is the list of its members, a map the list of its entries.
use flowra.Base.{
  ℕ, Uuid, same, same_iff, Bool, true, false, not, List, [], ◌∷◌, ◌++◌, ◌≡◌, refl, arith, exists,
  keep, ◌==◌, if◌then◌else◌, if-elim, sym,
}
use mathlib.Core.Path.{subst}

-- `_, ok := set[d]`
abbrev pub has : List ℕ → ℕ → Bool
has ds d = exists (λ e. e == d) ds

-- `set[d] = true`
unfoldable pub insert : List ℕ → ℕ → List ℕ
insert ds d = if has ds d then ds else ds ++ d ∷ []

-- `delete(set, d)`
unfoldable pub without : List ℕ → ℕ → List ℕ
without ds d = keep (λ e. not (e == d)) ds

abbrev pub Groups : Type 0
Groups = List (Uuid × List ℕ)

-- `groups[k]`: the empty set where there is no entry.
unfoldable pub members : Groups → Uuid → List ℕ
members [] k = []
members ((j, ds) ∷ g) k = if same j k then ds else members g k

-- `groups[k] = ds`
unfoldable pub put : Groups → Uuid → List ℕ → Groups
put [] k ds = (k, ds) ∷ []
put ((j, es) ∷ g) k ds = if same j k then (k, ds) ∷ g else (j, es) ∷ put g k ds

-- `delete(groups, k)`
unfoldable pub drop : Groups → Uuid → Groups
drop [] k = []
drop ((j, es) ∷ g) k = let rest = drop g k in if same j k then rest else (j, es) ∷ rest

-- A client added to a group, which is made where it is not there.
unfoldable pub join : Groups → Uuid → ℕ → Groups
unfolding put insert members
join g k d = put g k (insert (members g k) d)

abbrev pub is_nil : List ℕ → Bool
is_nil [] = true
is_nil (_ ∷ _) = false

-- A client taken out of a group, and the group if it is then empty.
unfoldable pub leave : Groups → Uuid → ℕ → Groups
unfolding drop put without members
leave g k d = let ds = without (members g k) d in if is_nil ds then drop g k else put g k ds

-- No member occurs twice.
abbrev pub Distinct : List ℕ → Type 0
Distinct [] = Unit {0}
Distinct (d ∷ ds) = (has ds d ≡ false) × Distinct ds

has-snoc : (ds : List ℕ) (d e : ℕ) → has (ds ++ d ∷ []) e ≡ (if d == e then true else has ds e)
has-snoc [] d e = ground arith
has-snoc (x ∷ ds) d e = ground (arith, has-snoc ds d e)

pub has-insert : (ds : List ℕ) (d e : ℕ) → has (insert ds d) e ≡ (if d == e then true else has ds e)
unfolding insert
has-insert ds d e = ground (arith, has-snoc ds d e)

has-keep :
    (ds : List ℕ) (d e : ℕ)
    → has (keep (λ x. not (x == d)) ds) e ≡ (if d == e then false else has ds e)
has-keep [] d e = ground arith
has-keep (x ∷ ds) d e = ground (arith, has-keep ds d e)

pub has-without :
    (ds : List ℕ) (d e : ℕ) → has (without ds d) e ≡ (if d == e then false else has ds e)
unfolding without
has-without ds d e = has-keep ds d e

Distinct-snoc : (ds : List ℕ) (d : ℕ) → has ds d ≡ false → Distinct ds → Distinct (ds ++ d ∷ [])
Distinct-snoc [] d h u = ground arith
Distinct-snoc (x ∷ ds) d h u = ground (arith, has-snoc ds d x, Distinct-snoc ds d)

pub Distinct-insert : (ds : List ℕ) (d : ℕ) → Distinct ds → Distinct (insert ds d)
unfolding insert
Distinct-insert ds d u = ground (arith, Distinct-snoc ds d)

pub Distinct-without : (ds : List ℕ) (d : ℕ) → Distinct ds → Distinct (without ds d)
unfolding without
Distinct-without [] d u = tt
Distinct-without (x ∷ ds) d u = ground (arith, has-keep ds d x, Distinct-without ds d u.1)

members-put :
    (g : Groups) (k j : Uuid) (ds : List ℕ)
    → members (put g k ds) j ≡ (if same k j then ds else members g j)
unfolding members put
members-put [] k j ds = refl
members-put ((i, es) ∷ g) k j ds =
    ground (arith, members-put g k j ds, same_iff i k, same_iff k j, same_iff i j)

members-drop :
    (g : Groups) (k j : Uuid) → members (drop g k) j ≡ (if same k j then [] else members g j)
unfolding members drop
members-drop [] k j = ground arith
members-drop ((i, es) ∷ g) k j =
    ground (arith, members-drop g k j, same_iff i k, same_iff k j, same_iff i j)

pub members-join :
    (g : Groups) (k j : Uuid) (d : ℕ)
    → members (join g k d) j ≡ (if same k j then insert (members g k) d else members g j)
unfolding join
members-join g k j d = members-put g k j (insert (members g k) d)

is_nil-eq : (ds : List ℕ) → is_nil ds ≡ true → ds ≡ []
is_nil-eq [] h = refl
is_nil-eq (d ∷ ds) h = cc

pub members-leave :
    (g : Groups) (k j : Uuid) (d : ℕ)
    → members (leave g k d) j ≡ (if same k j then without (members g k) d else members g j)
unfolding leave
members-leave g k j d = ground (
  arith,
  members-put g k j (without (members g k) d),
  members-drop g k j,
  is_nil-eq (without (members g k) d),
)

-- No group is empty.
abbrev pub NoneEmpty : Groups → Type 0
NoneEmpty [] = Unit {0}
NoneEmpty ((j, ds) ∷ g) = (is_nil ds ≡ false) × NoneEmpty g

NoneEmpty-put :
    (g : Groups) (k : Uuid) (ds : List ℕ) → is_nil ds ≡ false → NoneEmpty g → NoneEmpty (put g k ds)
unfolding put
NoneEmpty-put [] k ds h n = ground arith
NoneEmpty-put ((j, es) ∷ g) k ds h n = ground (arith, NoneEmpty-put g k ds)

NoneEmpty-drop : (g : Groups) (k : Uuid) → NoneEmpty g → NoneEmpty (drop g k)
unfolding drop
NoneEmpty-drop [] k n = tt
NoneEmpty-drop ((j, es) ∷ g) k n = ground (arith, NoneEmpty-drop g k)

insert_filled : (ds : List ℕ) (d : ℕ) → is_nil (insert ds d) ≡ false
unfolding insert
insert_filled [] d = refl
insert_filled (x ∷ ds) d = ground arith

pub NoneEmpty-join : (g : Groups) (k : Uuid) (d : ℕ) → NoneEmpty g → NoneEmpty (join g k d)
unfolding join
NoneEmpty-join g k d n =
    NoneEmpty-put g k (insert (members g k) d) (insert_filled (members g k) d) n

pub NoneEmpty-leave : (g : Groups) (k : Uuid) (d : ℕ) → NoneEmpty g → NoneEmpty (leave g k d)
unfolding leave
NoneEmpty-leave g k d n =
    ground (arith, NoneEmpty-put g k (without (members g k) d), NoneEmpty-drop g k)

module _ (g : Groups) (k : Uuid) (d : ℕ) (u : (j : Uuid) → Distinct (members g j)) where
  pub Distinct-join : (j : Uuid) → Distinct (members (join g k d) j)
  Distinct-join j = subst Distinct (sym (members-join g k j d)) (
      if-elim Distinct (same k j) (insert (members g k) d) (members g j)
        (λ _. Distinct-insert (members g k) d (u k)) (λ _. u j))

  pub Distinct-leave : (j : Uuid) → Distinct (members (leave g k d) j)
  Distinct-leave j = subst Distinct (sym (members-leave g k j d)) (
      if-elim Distinct (same k j) (without (members g k) d) (members g j)
        (λ _. Distinct-without (members g k) d (u k)) (λ _. u j))
