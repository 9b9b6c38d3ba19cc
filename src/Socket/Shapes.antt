-- ===== src/Socket/Shapes.antt =====
-- When the maps of the hub (hub.go) agree with its clients, and changes that touch neither.
use flowra.Base.{
  ℕ, ◌≤◌, Uuid, same, is_empty, true, ◌&&◌, not, Option, some, List, [], ◌∷◌, ◌≡◌, refl, sym, ap,
  ◌∙◌, arith, ok, ok-eq, else-eq-ok, length, length-append, ◌==◌, if◌then◌else◌, has_key,
}
use mathlib.Core.Path.{subst}
use flowra.Socket.Groups.{has, Groups, members, Distinct, NoneEmpty}
use flowra.Socket.Hub.{
  Message, Broadcast, Loop, Client, Hub, closed_channel, buffer_size, has_chat, update,
  close_client, offered, deliver,
}

-- The maps agree with what the clients themselves hold, and the channels with their sizes.
pub record IsSoundHub (h : Hub) : Type 0 where
  pub rooms :
      (k : Uuid) (d : ℕ)
      → has (members h.chat_rooms k) d ≡ (has h.clients d && has_chat (h.heap d) k)
  pub users :
      (u : Uuid) (d : ℕ)
      → has (members h.user_clients u) d
        ≡ (has h.clients d && (same (h.heap d).user u && not (is_empty u)))
  pub rooms_distinct : (k : Uuid) → Distinct (members h.chat_rooms k)
  pub users_distinct : (u : Uuid) → Distinct (members h.user_clients u)
  pub rooms_filled : NoneEmpty h.chat_rooms
  pub users_filled : NoneEmpty h.user_clients
  pub queue_bounded : length h.queue ≤ buffer_size
  pub buffers_bounded : (d : ℕ) → length (h.heap d).buffer ≤ buffer_size

-- Changes that touch neither a client's user nor its chats.
module _ {h : Hub} (v : IsSoundHub h) where
  pub with_queue :
      (q : List Broadcast) → length q ≤ buffer_size → IsSoundHub (record h { queue = q })
  with_queue q b = record {
    rooms = v.rooms;
    users = v.users;
    rooms_distinct = v.rooms_distinct;
    users_distinct = v.users_distinct;
    rooms_filled = v.rooms_filled;
    users_filled = v.users_filled;
    queue_bounded = b;
    buffers_bounded = v.buffers_bounded;
  }

  pub with_loop : (l : Loop) → IsSoundHub (record h { loop = l })
  with_loop l = record {
    rooms = v.rooms;
    users = v.users;
    rooms_distinct = v.rooms_distinct;
    users_distinct = v.users_distinct;
    rooms_filled = v.rooms_filled;
    users_filled = v.users_filled;
    queue_bounded = v.queue_bounded;
    buffers_bounded = v.buffers_bounded;
  }

  pub same_shape :
      (heap : ℕ → Client)
      → ((d : ℕ) → (heap d).user ≡ (h.heap d).user)
      → ((d : ℕ) → (heap d).chats ≡ (h.heap d).chats)
      → ((d : ℕ) → length (heap d).buffer ≤ buffer_size)
      → IsSoundHub (record h { heap = heap })
  same_shape heap u c b = record {
    rooms = λ k d. v.rooms k d ∙ ap (λ x. has h.clients d && has_key (λ j. j) x k) (sym (c d));
    users = λ k d.
        v.users k d ∙ ap (λ x. has h.clients d && (same x k && not (is_empty k))) (sym (u d));
    rooms_distinct = v.rooms_distinct;
    users_distinct = v.users_distinct;
    rooms_filled = v.rooms_filled;
    users_filled = v.users_filled;
    queue_bounded = v.queue_bounded;
    buffers_bounded = b;
  }

  pub with_rooms :
      (g : Groups) (heap : ℕ → Client)
      → ((k : Uuid) (d : ℕ) → has (members g k) d ≡ (has h.clients d && has_chat (heap d) k))
      → ((d : ℕ) → (heap d).user ≡ (h.heap d).user)
      → ((k : Uuid) → Distinct (members g k))
      → NoneEmpty g
      → ((d : ℕ) → (heap d).buffer ≡ (h.heap d).buffer)
      → IsSoundHub (record h { chat_rooms = g; heap = heap })
  with_rooms g heap r u t f b = record {
    rooms = r;
    users = λ k d.
        v.users k d ∙ ap (λ x. has h.clients d && (same x k && not (is_empty k))) (sym (u d));
    rooms_distinct = t;
    users_distinct = v.users_distinct;
    rooms_filled = f;
    users_filled = v.users_filled;
    queue_bounded = v.queue_bounded;
    buffers_bounded = λ d. omega (arith, ap length (b d), v.buffers_bounded d);
  }

  pub close_client-IsSoundHub : (d : ℕ) → IsSoundHub (close_client d h)
  unfolding close_client update
  close_client-IsSoundHub d =
      same_shape (λ e. if d == e then record (h.heap d) { closed = true } else h.heap e)
        (λ e. ground arith) (λ e. ground arith)
        (λ e. ground (arith, v.buffers_bounded d, v.buffers_bounded e))

pub some-eq : {h h' : Hub} → ◌≡◌ {A = Option Hub} (some h) (some h') → h ≡ h'
some-eq e = cc

pub update_self : (heap : ℕ → Client) (d : ℕ) (c : Client) → update heap d c d ≡ c
unfolding update
update_self heap d c = ground arith

pub offered_shape :
    (m : Message) (c : Client)
    → ((offered m c).user ≡ c.user)
      × ((offered m c).chats ≡ c.chats)
      × (length c.buffer ≤ buffer_size → length (offered m c).buffer ≤ buffer_size)
unfolding offered
offered_shape m c =
    (ground arith, ground arith, λ b. ground (arith, length-append c.buffer (m ∷ [])))

-- A heap after messages are put into buffers.
pub record Filled (h h' : ℕ → Client) : Type 0 where
  pub same_user : (d : ℕ) → (h' d).user ≡ (h d).user
  pub same_chats : (d : ℕ) → (h' d).chats ≡ (h d).chats
  pub bounded :
      ((d : ℕ) → length (h d).buffer ≤ buffer_size) → (d : ℕ) → length (h' d).buffer ≤ buffer_size

pub Filled-refl : (h : ℕ → Client) → Filled h h
Filled-refl h = record { same_user = λ d. refl; same_chats = λ d. refl; bounded = λ b. b }

pub Filled-trans : {h h' h'' : ℕ → Client} → Filled h h' → Filled h' h'' → Filled h h''
Filled-trans f g = record {
  same_user = λ d. g.same_user d ∙ f.same_user d;
  same_chats = λ d. g.same_chats d ∙ f.same_chats d;
  bounded = λ b. g.bounded (f.bounded b);
}

pub Filled-offered :
    (h : ℕ → Client) (m : Message) (d : ℕ) → Filled h (update h d (offered m (h d)))
unfolding update
Filled-offered h m d = record {
  same_user = λ e. ground (arith, offered_shape m (h d));
  same_chats = λ e. ground (arith, offered_shape m (h d));
  bounded = λ b e. ground (arith, (offered_shape m (h d)).2 (b d), b e);
}

pub deliver-Filled :
    (m : Message) (ds : List ℕ) (heap heap' : ℕ → Client)
    → deliver m ds heap ≡ ok heap'
    → Filled heap heap'
unfolding deliver
deliver-Filled m [] heap heap' h = subst (Filled heap) (ok-eq h) (Filled-refl heap)
deliver-Filled m (d ∷ ds) heap heap' h =
    let (_, r) =
      else-eq-ok (heap d).closed closed_channel (deliver m ds (update heap d (offered m (heap d))))
        h in
    Filled-trans (Filled-offered heap m d)
      (deliver-Filled m ds (update heap d (offered m (heap d))) heap' r)
