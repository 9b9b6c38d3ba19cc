-- ===== src/Socket/Joining.antt =====
-- Messages, subscriptions and new connections leave the maps of the hub (hub.go) in agreement with its clients.
use flowra.Base.{
  ℕ, Uuid, same, same_iff, is_empty, true, false, ◌&&◌, not, some, List, [], ◌∷◌, ◌++◌, ◌≡◌, refl,
  ap, ◌>>=◌, arith, ok, chain_ok, ok-eq, length, length-append, ◌==◌, if◌then◌else◌, has_key-snoc,
  has_key-without, if-elim,
}
use mathlib.Core.Path.{subst}
use flowra.Socket.Groups.{
  has, insert, members, join, leave, Distinct, NoneEmpty, has-insert, has-without, Distinct-join,
  Distinct-leave, members-join, members-leave, NoneEmpty-join, NoneEmpty-leave,
}
use flowra.Socket.Hub.{
  Message, Loop, registering, announcing, Broadcast, to_chat, to_user, Client, Hub, new_client,
  has_chat, registered, add_chat, remove_chat, update, offered, send, announce, register_client,
  join_chat, leave_chat, deliver, handle_broadcast, broadcast, with_heap,
}
use flowra.Socket.Steps.{connected}
use flowra.Socket.Shapes.{
  IsSoundHub, with_queue, same_shape, with_rooms, update_self, Filled-offered, deliver-Filled,
  with_loop,
}

pub with_heap-eq :
    (h : Hub) (heap : ℕ → Client) (h' : Hub)
    → with_heap h heap ≡ ok h'
    → record h { heap = heap } ≡ h'
unfolding with_heap
with_heap-eq h heap h' e = ok-eq e

pub has_chat-add_chat :
    (k j : Uuid) (c : Client)
    → has_chat (add_chat k c) j ≡ (if same k j then true else has_chat c j)
unfolding add_chat
has_chat-add_chat k j c = ground (arith, has_key-snoc (λ i. i) c.chats k j, same_iff k j)

pub has_chat-remove_chat :
    (k j : Uuid) (c : Client)
    → has_chat (remove_chat k c) j ≡ (if same k j then false else has_chat c j)
unfolding remove_chat
has_chat-remove_chat k j c = has_key-without (λ i. i) c.chats k j

pub add_chat_shape :
    (k : Uuid) (c : Client) → ((add_chat k c).user ≡ c.user) × ((add_chat k c).buffer ≡ c.buffer)
unfolding add_chat
add_chat_shape k c = (ground arith, ground arith)

pub remove_chat_shape :
    (k : Uuid) (c : Client)
    → ((remove_chat k c).user ≡ c.user) × ((remove_chat k c).buffer ≡ c.buffer)
unfolding remove_chat
remove_chat_shape k c = (refl, refl)

module _ {h : Hub} (v : IsSoundHub h) where
  pub announce-IsSoundHub : (l : Loop) (h' : Hub) → announce l h ≡ some h' → IsSoundHub h'
  unfolding announce
  announce-IsSoundHub (registering d) h' e = cc
  announce-IsSoundHub (announcing []) h' e = cc
  announce-IsSoundHub (announcing (b ∷ bs)) h' e =
      let grown = h.queue ++ b ∷ [] in
      let same_hub : record h { queue = grown; loop = announcing bs } ≡ h' = ground arith in
      subst IsSoundHub same_hub (
        with_loop (with_queue v grown (ground (arith, length-append h.queue (b ∷ []))))
          (announcing bs))

  pub delivered-IsSoundHub :
      (m : Message) (ds : List ℕ) (h' : Hub)
      → (deliver m ds h.heap >>= with_heap h) ≡ ok h'
      → IsSoundHub h'
  delivered-IsSoundHub m ds h' e =
      let (heap, w, r) = chain_ok (deliver m ds h.heap) (with_heap h) e in
      let f = deliver-Filled m ds h.heap heap r in
      subst IsSoundHub (with_heap-eq h heap h' w)
        (same_shape v heap f.same_user f.same_chats (f.bounded v.buffers_bounded))

  pub handle_broadcast-IsSoundHub :
      (b : Broadcast) (h' : Hub) → handle_broadcast b h ≡ ok h' → IsSoundHub h'
  unfolding handle_broadcast
  handle_broadcast-IsSoundHub (to_chat k m) h' e =
      delivered-IsSoundHub m (members h.chat_rooms k) h' e
  handle_broadcast-IsSoundHub (to_user u m) h' e =
      delivered-IsSoundHub m (members h.user_clients u) h' e

  pub send-IsSoundHub : (m : Message) (d : ℕ) → IsSoundHub (send m d h)
  unfolding send
  send-IsSoundHub m d =
      let f = Filled-offered h.heap m d in
      if-elim IsSoundHub (h.heap d).closed h
        (record h { heap = update h.heap d (offered m (h.heap d)) }) (λ _. v)
        (λ _.
          same_shape v (update h.heap d (offered m (h.heap d))) f.same_user f.same_chats
            (f.bounded v.buffers_bounded))

  pub broadcast-IsSoundHub : (b : Broadcast) (h' : Hub) → broadcast b h ≡ some h' → IsSoundHub h'
  unfolding broadcast
  broadcast-IsSoundHub b h' e =
      let grown = h.queue ++ b ∷ [] in
      let same_hub : record h { queue = grown } ≡ h' = ground arith in
      subst IsSoundHub same_hub
        (with_queue v grown (ground (arith, length-append h.queue (b ∷ []))))

  pub join_chat-IsSoundHub : (d : ℕ) (k : Uuid) → IsSoundHub (join_chat d k h)
  unfolding join_chat update
  join_chat-IsSoundHub d k =
      let heap = update h.heap d (add_chat k (h.heap d)) in
      let kept = add_chat_shape k (h.heap d) in
      if-elim IsSoundHub (not (has h.clients d)) h
        (record h { chat_rooms = join h.chat_rooms k d; heap = heap }) (λ _. v)
        (λ r.
          with_rooms v (join h.chat_rooms k d) heap (λ j e. joined-room r j e)
            (λ e. ground (arith, kept.0)) (Distinct-join h.chat_rooms k d v.rooms_distinct)
            (NoneEmpty-join h.chat_rooms k d v.rooms_filled) (λ e. ground (arith, kept.1)))
    where
      joined-room :
          not (has h.clients d) ≡ false
          → (j : Uuid) (e : ℕ)
          → has (members (join h.chat_rooms k d) j) e
            ≡ (has h.clients e && has_chat (update h.heap d (add_chat k (h.heap d)) e) j)
      joined-room r j e = ground (
        arith,
        members-join h.chat_rooms k j d,
        has-insert (members h.chat_rooms k) d e,
        has_chat-add_chat k j (h.heap d),
        v.rooms j e,
        v.rooms k e,
        same_iff k j,
      )

  pub leave_chat-IsSoundHub : (d : ℕ) (k : Uuid) → IsSoundHub (leave_chat d k h)
  unfolding leave_chat update
  leave_chat-IsSoundHub d k =
      let heap = update h.heap d (remove_chat k (h.heap d)) in
      let kept = remove_chat_shape k (h.heap d) in
      with_rooms v (leave h.chat_rooms k d) heap
        (λ j e. ground (
          arith,
          members-leave h.chat_rooms k j d,
          has-without (members h.chat_rooms k) d e,
          has_chat-remove_chat k j (h.heap d),
          v.rooms j e,
          v.rooms k e,
          same_iff k j,
        ))
        (λ e. ground (arith, kept.0)) (Distinct-leave h.chat_rooms k d v.rooms_distinct)
        (NoneEmpty-leave h.chat_rooms k d v.rooms_filled) (λ e. ground (arith, kept.1))

  -- The hub with a new client in its maps.
  abbrev pub entered : ℕ → Uuid → Hub
  entered d u = record (connected d u h) {
    clients = insert h.clients d;
    user_clients = if is_empty u then h.user_clients else join h.user_clients u d;
  }

  pub register_client-entered :
      (d : ℕ) (u : Uuid)
      → register_client d (connected d u h) ≡ record (entered d u) {
        loop =
            if not (is_empty u) && (length (members h.user_clients u) == 0)
            then registering d
            else announcing [];
      }
  unfolding register_client registered
  register_client-entered d u =
      ap (λ c. registered d c (connected d u h)) (update_self h.heap d (new_client u))

  pub entered-user :
      (d : ℕ) (u : Uuid)
      → has h.clients d ≡ false
      → (w : Uuid) (e : ℕ)
      → has (members (entered d u).user_clients w) e ≡ (
          has (insert h.clients d) e
          && (same (update h.heap d (new_client u) e).user w && not (is_empty w)))
  unfolding update
  entered-user d u n w e = ground (
    arith,
    members-join h.user_clients u w d,
    has-insert (members h.user_clients u) d e,
    has-insert h.clients d e,
    v.users w e,
    v.users u e,
    same_iff u w,
  )

  pub entered-IsSoundHub : (d : ℕ) (u : Uuid) → has h.clients d ≡ false → IsSoundHub (entered d u)
  entered-IsSoundHub d u n = record {
    rooms = λ k e. unfold update in ground (arith, has-insert h.clients d e, v.rooms k e);
    users = entered-user d u n;
    rooms_distinct = v.rooms_distinct;
    users_distinct =
        if-elim (λ g. (k : Uuid) → Distinct (members g k)) (is_empty u) h.user_clients
          (join h.user_clients u d) (λ _. v.users_distinct)
          (λ _. Distinct-join h.user_clients u d v.users_distinct);
    rooms_filled = v.rooms_filled;
    users_filled =
        if-elim NoneEmpty (is_empty u) h.user_clients (join h.user_clients u d)
          (λ _. v.users_filled) (λ _. NoneEmpty-join h.user_clients u d v.users_filled);
    queue_bounded = v.queue_bounded;
    buffers_bounded = λ e. unfold update in ground (arith, v.buffers_bounded e);
  }
