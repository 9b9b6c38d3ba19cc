-- ===== src/Socket/Presence.antt =====
-- Who is online, by the hub (hub.go).
use flowra.Base.{
  ℕ, Uuid, same_iff, is_empty, true, false, List, [], ◌∷◌, ◌≡◌, ◌↔◌, arith, length, ltb,
}
use flowra.Socket.Groups.{has, members}
use flowra.Socket.Hub.{Hub, is_online}
use flowra.Socket.Steps.{Reach}
use flowra.Socket.Shapes.{IsSoundHub}
use flowra.Socket.Soundness.{Reach-IsSoundHub}

has-filled : (ds : List ℕ) (d : ℕ) → has ds d ≡ true → ltb 0 (length ds) ≡ true
has-filled [] d h = cc
has-filled (x ∷ ds) d h = ground arith

filled-has : (ds : List ℕ) → ltb 0 (length ds) ≡ true → (d : ℕ) × (has ds d ≡ true)
filled-has [] h = cc
filled-has (x ∷ ds) h = (x, ground arith)

module _ {h : Hub} (v : IsSoundHub h) where
  sound-is_online_iff :
      (u : Uuid)
      → is_empty u ≡ false
      → (is_online h u ≡ true) ↔ ((d : ℕ) × (has h.clients d ≡ true) × ((h.heap d).user ≡ u))
  unfolding is_online
  sound-is_online_iff u n = (
    λ o.
        (let (d, i) = filled-has (members h.user_clients u) o in
          (
            d,
            ground (arith, v.users u d),
            ground (arith, v.users u d, same_iff (h.heap d).user u),
          )),
    λ p.
        has-filled (members h.user_clients u) p.0
          (ground (arith, v.users u p.0, p.1, p.2, same_iff (h.heap p.0).user u)),
  )

-- In every state that the hub reaches, the presence of a user is told as it is: the user is online exactly if a
-- registered client is the user's.
pub is_online_iff :
    (h : Hub) (u : Uuid)
    → Reach h
    → is_empty u ≡ false
    → (is_online h u ≡ true) ↔ ((d : ℕ) × (has h.clients d ≡ true) × ((h.heap d).user ≡ u))
is_online_iff h u r n = sound-is_online_iff (Reach-IsSoundHub h r) u n
