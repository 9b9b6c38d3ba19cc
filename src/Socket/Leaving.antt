-- ===== src/Socket/Leaving.antt =====
-- So do registrations and disconnections (registerClient and unregisterClient of hub.go).
use flowra.Base.{
  ℕ, Uuid, same, same_iff, is_empty, true, false, ◌&&◌, not, List, [], ◌∷◌, ◌≡◌, sym, ap, arith,
  length, ◌==◌, ==_iff, if◌then◌else◌, has_key, if-elim,
}
use mathlib.Core.Path.{subst}
use flowra.Socket.Groups.{
  has, without, Groups, members, leave, Distinct, NoneEmpty, has-without, Distinct-leave,
  members-leave, NoneEmpty-leave,
}
use flowra.Socket.Hub.{
  presence_changed, registering, announcing, announcements, read_chats, Hub, has_chat,
  register_client, leave_all, removed, unregister_client, has_other_connections,
}
use flowra.Socket.Steps.{connected}
use flowra.Socket.Shapes.{IsSoundHub, with_loop, close_client-IsSoundHub}
use flowra.Socket.Joining.{register_client-entered, entered-IsSoundHub}

pub leave_all-has :
    (g : Groups) (ks : List Uuid) (d : ℕ) (j : Uuid) (e : ℕ)
    → has (members (leave_all g ks d) j) e
      ≡ (if has_key (λ i. i) ks j && d == e then false else has (members g j) e)
unfolding leave_all
leave_all-has g [] d j e = ground arith
leave_all-has g (k ∷ ks) d j e = ground (
  arith,
  leave_all-has (leave g k d) ks d j e,
  members-leave g k j d,
  has-without (members g k) d e,
  same_iff k j,
)

pub leave_all-Distinct :
    (g : Groups) (ks : List Uuid) (d : ℕ)
    → ((j : Uuid) → Distinct (members g j))
    → (j : Uuid) → Distinct (members (leave_all g ks d) j)
unfolding leave_all
leave_all-Distinct g [] d u = u
leave_all-Distinct g (k ∷ ks) d u = leave_all-Distinct (leave g k d) ks d (Distinct-leave g k d u)

pub leave_all-NoneEmpty :
    (g : Groups) (ks : List Uuid) (d : ℕ) → NoneEmpty g → NoneEmpty (leave_all g ks d)
unfolding leave_all
leave_all-NoneEmpty g [] d n = n
leave_all-NoneEmpty g (k ∷ ks) d n =
    leave_all-NoneEmpty (leave g k d) ks d (NoneEmpty-leave g k d n)

module _ {h : Hub} (v : IsSoundHub h) where
  pub register_client-IsSoundHub :
      (d : ℕ) (u : Uuid)
      → has h.clients d ≡ false
      → IsSoundHub (register_client d (connected d u h))
  register_client-IsSoundHub d u n = subst IsSoundHub (sym (register_client-entered v d u)) (
      with_loop (entered-IsSoundHub v d u n) (
        if not (is_empty u) && (length (members h.user_clients u) == 0)
        then registering d
        else announcing []))

  pub read_chats-IsSoundHub : (d : ℕ) → IsSoundHub (read_chats d h)
  unfolding read_chats
  read_chats-IsSoundHub d =
      with_loop v
        (announcing (announcements (presence_changed (h.heap d).user true) (h.heap d).chats))

  -- The hub without a client, which is not closed yet.
  abbrev pub left : ℕ → Hub
  left d = record h {
    clients = without h.clients d;
    chat_rooms = leave_all h.chat_rooms (h.heap d).chats d;
    user_clients =
        if is_empty (h.heap d).user then h.user_clients else leave h.user_clients (h.heap d).user d;
  }

  pub left-user :
      (d : ℕ) (w : Uuid) (e : ℕ)
      → has (members (left d).user_clients w) e
        ≡ (has (without h.clients d) e && (same (h.heap e).user w && not (is_empty w)))
  left-user d w e =
      let u = (h.heap d).user in
      ground (
        arith,
        members-leave h.user_clients u w d,
        has-without (members h.user_clients u) d e,
        has-without h.clients d e,
        v.users w e,
        v.users w d,
        v.users u e,
        same_iff u w,
        ==_iff d e,
        ap h.heap {x = d} {y = e},
      )

  pub left-room :
      (d : ℕ) (k : Uuid) (e : ℕ)
      → has (members (left d).chat_rooms k) e
        ≡ (has (without h.clients d) e && has_chat (h.heap e) k)
  left-room d k e = ground (
    arith,
    leave_all-has h.chat_rooms (h.heap d).chats d k e,
    has-without h.clients d e,
    v.rooms k e,
    v.rooms k d,
    ==_iff d e,
    ap h.heap {x = d} {y = e},
  )

  pub left-IsSoundHub : (d : ℕ) → IsSoundHub (left d)
  left-IsSoundHub d =
      let u = (h.heap d).user in
      record {
        rooms = left-room d;
        users = left-user d;
        rooms_distinct = leave_all-Distinct h.chat_rooms (h.heap d).chats d v.rooms_distinct;
        users_distinct =
            if-elim (λ g. (k : Uuid) → Distinct (members g k)) (is_empty u) h.user_clients
              (leave h.user_clients u d) (λ _. v.users_distinct)
              (λ _. Distinct-leave h.user_clients u d v.users_distinct);
        rooms_filled = leave_all-NoneEmpty h.chat_rooms (h.heap d).chats d v.rooms_filled;
        users_filled =
            if-elim NoneEmpty (is_empty u) h.user_clients (leave h.user_clients u d)
              (λ _. v.users_filled) (λ _. NoneEmpty-leave h.user_clients u d v.users_filled);
        queue_bounded = v.queue_bounded;
        buffers_bounded = v.buffers_bounded;
      }

  pub removed-IsSoundHub : (d : ℕ) → IsSoundHub (removed d h)
  unfolding removed
  removed-IsSoundHub d = close_client-IsSoundHub (left-IsSoundHub d) d

  pub unregister_client-IsSoundHub : (d : ℕ) → IsSoundHub (unregister_client d h)
  unfolding unregister_client
  unregister_client-IsSoundHub d =
      let sent = announcements (presence_changed (h.heap d).user false) (h.heap d).chats in
      let l = announcing (if has_other_connections d h then [] else sent) in
      if-elim IsSoundHub (not (has h.clients d)) h (record (removed d h) { loop = l }) (λ _. v)
        (λ _. with_loop (removed-IsSoundHub d) l)
