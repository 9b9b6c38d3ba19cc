-- ===== src/Socket/Hub.antt =====
-- internal/infrastructure/websocket/hub.go and client.go: the hub and its clients. Each method holds the hub's mutex
-- while it changes the maps, and what it does behind the mutex, reading the chats of a new client and announcing, is left
-- to do in `loop`. The loop of Run is the only receiver of the channel `broadcast`.
use flowra.Base.{
  ℕ, Text, Uuid, is_empty, Bool, true, false, ◌&&◌, not, Option, none, some, List, [], ◌∷◌, ◌++◌,
  Result, ok, err, ◌>>=◌, length, ltb, ◌==◌, if◌then◌else◌, has_key, without_key,
}
use flowra.Socket.Groups.{has, insert, without, Groups, members, join, leave}

-- What is sent to clients: PresenceChangeMessage, TypingMessage, the answers of a client's own connection, and what the
-- callers of BroadcastToChat and SendToUser send.
pub data Message : Type 0 where
  presence_changed : Uuid → Bool → Message
  typing : Uuid → Uuid → Message
  error_message : Message
  ack : Bool → Uuid → Message
  pong : Message
  payload : Text → Message

-- broadcastMessage: to a chat or to a user
pub data Broadcast : Type 0 where
  to_chat : Uuid → Message → Broadcast
  to_user : Uuid → Message → Broadcast

-- Client. `buffer` is the channel `send`, oldest first, and `chats` the set chatIDs.
pub record Client : Type 0 where
  pub user : Uuid
  pub chats : List Uuid
  pub buffer : List Message
  pub closed : Bool

-- What the loop of Run is at: reading the chats of a client that is its user's first, or sending announcements, where
-- there are none left waiting for the next register, unregister or broadcast.
pub data Loop : Type 0 where
  registering : ℕ → Loop
  announcing : List Broadcast → Loop

-- Hub, with the clients that the pointers lead to. `queue` is the channel `broadcast`, oldest first.
pub record Hub : Type 0 where
  pub clients : List ℕ
  pub chat_rooms : Groups
  pub user_clients : Groups
  pub queue : List Broadcast
  pub heap : ℕ → Client
  pub loop : Loop

-- What brings the hub down: a send on a closed channel panics.
pub data Fault : Type 0 where
  closed_channel : Fault

-- defaultBroadcastBufferSize and defaultSendBufferSize
abbrev pub buffer_size : ℕ
buffer_size = 256

-- NewClient
abbrev pub new_client : Uuid → Client
new_client u = record { user = u; chats = []; buffer = []; closed = false }

-- NewHub; the pointers lead nowhere yet.
abbrev pub new_hub : Hub
new_hub = record {
  clients = [];
  chat_rooms = [];
  user_clients = [];
  queue = [];
  heap = λ d. new_client [];
  loop = announcing [];
}

-- HasChat
abbrev pub has_chat : Client → Uuid → Bool
has_chat c k = has_key (λ j. j) c.chats k

-- AddChat
unfoldable pub add_chat : Uuid → Client → Client
add_chat k c = if has_chat c k then c else record c { chats = c.chats ++ k ∷ [] }

-- RemoveChat
unfoldable pub remove_chat : Uuid → Client → Client
remove_chat k c = record c { chats = without_key (λ j. j) c.chats k }

-- A write to the client that a pointer leads to.
unfoldable pub update : (ℕ → Client) → ℕ → Client → ℕ → Client
update heap d c e = if d == e then c else heap e

-- Close
unfoldable pub close_client : ℕ → Hub → Hub
close_client d h = record h { heap = update h.heap d (record (h.heap d) { closed = true }) }

-- `select { case client.send <- m: default: }`, on an open channel
unfoldable pub offered : Message → Client → Client
offered m c =
    if ltb (length c.buffer) buffer_size then record c { buffer = c.buffer ++ m ∷ [] } else c

-- Send
unfoldable pub send : Message → ℕ → Hub → Hub
send m d h =
    if (h.heap d).closed then h else record h { heap = update h.heap d (offered m (h.heap d)) }

-- BroadcastPresenceChange: the messages to send, one for each of the chats.
unfoldable pub announcements : Message → List Uuid → List Broadcast
announcements m [] = []
announcements m (k ∷ ks) = to_chat k m ∷ announcements m ks

-- One send of BroadcastPresenceChange by the loop of Run: none where it has to wait, or has nothing to send.
unfoldable pub announce : Loop → Hub → Option Hub
announce (registering d) h = none
announce (announcing []) h = none
announce (announcing (b ∷ bs)) h =
    if ltb (length h.queue) buffer_size
    then some (record h { queue = h.queue ++ b ∷ []; loop = announcing bs })
    else none

-- registerClient under its mutex, of the client that the pointer leads to
unfoldable pub registered : ℕ → Client → Hub → Hub
registered d c h =
    let first = not (is_empty c.user) && (length (members h.user_clients c.user) == 0) in
    record h {
      clients = insert h.clients d;
      user_clients = if is_empty c.user then h.user_clients else join h.user_clients c.user d;
      loop = if first then registering d else announcing [];
    }

-- registerClient under its mutex
unfoldable pub register_client : ℕ → Hub → Hub
register_client d h = registered d (h.heap d) h

-- registerClient behind its mutex: the chats of the client by then.
unfoldable pub read_chats : ℕ → Hub → Hub
read_chats d h = record h {
  loop = announcing (announcements (presence_changed (h.heap d).user true) (h.heap d).chats);
}

-- The loop of unregisterClient over the chats.
unfoldable pub leave_all : Groups → List Uuid → ℕ → Groups
leave_all g [] d = g
leave_all g (k ∷ ks) d = leave_all (leave g k d) ks d

-- unregisterClient, but for the announcements at its end
unfoldable pub removed : ℕ → Hub → Hub
removed d h =
    let u = (h.heap d).user in
    close_client d (record h {
      clients = without h.clients d;
      chat_rooms = leave_all h.chat_rooms (h.heap d).chats d;
      user_clients = if is_empty u then h.user_clients else leave h.user_clients u d;
    })

-- hasOtherConnections of unregisterClient
unfoldable pub has_other_connections : ℕ → Hub → Bool
has_other_connections d h =
    let u = (h.heap d).user in not (is_empty u) && ltb 1 (length (members h.user_clients u))

-- unregisterClient, with the announcements left to do. The client is closed behind the mutex, once it is in no map.
unfoldable pub unregister_client : ℕ → Hub → Hub
unregister_client d h = if not (has h.clients d) then h else record (removed d h) {
  loop = announcing (
      if has_other_connections d h
      then []
      else announcements (presence_changed (h.heap d).user false) (h.heap d).chats);
}

-- JoinChat
unfoldable pub join_chat : ℕ → Uuid → Hub → Hub
join_chat d k h = if not (has h.clients d) then h else record h {
  chat_rooms = join h.chat_rooms k d;
  heap = update h.heap d (add_chat k (h.heap d));
}

-- LeaveChat
unfoldable pub leave_chat : ℕ → Uuid → Hub → Hub
leave_chat d k h = record h {
  chat_rooms = leave h.chat_rooms k d;
  heap = update h.heap d (remove_chat k (h.heap d));
}

-- The loop of handleBroadcast over the clients.
unfoldable pub deliver : Message → List ℕ → (ℕ → Client) → Result Fault (ℕ → Client)
deliver m [] heap = ok heap
deliver m (d ∷ ds) heap =
    let rest = deliver m ds (update heap d (offered m (heap d))) in
    if (heap d).closed then err closed_channel else rest

unfoldable pub with_heap : Hub → (ℕ → Client) → Result Fault Hub
with_heap h heap = ok (record h { heap = heap })

-- handleBroadcast
unfoldable pub handle_broadcast : Broadcast → Hub → Result Fault Hub
handle_broadcast (to_chat k m) h = deliver m (members h.chat_rooms k) h.heap >>= with_heap h
handle_broadcast (to_user u m) h = deliver m (members h.user_clients u) h.heap >>= with_heap h

-- BroadcastToChat, SendToUser and BroadcastTyping, by another goroutine than the loop of Run: none where it has to wait.
unfoldable pub broadcast : Broadcast → Hub → Option Hub
broadcast b h =
    if ltb (length h.queue) buffer_size then some (record h { queue = h.queue ++ b ∷ [] }) else none

-- ClientMessage, by its type; `malformed` is no JSON object of the form.
pub data ClientMessage : Type 0 where
  subscribe unsubscribe chat_typing : Uuid → ClientMessage
  ping unknown_type malformed : ClientMessage

-- handleClientMessage: none where it has to wait
unfoldable pub handle_client_message : ℕ → ClientMessage → Hub → Option Hub
handle_client_message d (subscribe k) h =
    some (if is_empty k then send error_message d h else send (ack true k) d (join_chat d k h))
handle_client_message d (unsubscribe k) h =
    some (if is_empty k then send error_message d h else send (ack false k) d (leave_chat d k h))
handle_client_message d (chat_typing k) h =
    if is_empty k
    then some (send error_message d h)
    else broadcast (to_chat k (typing k (h.heap d).user)) h
handle_client_message d ping h = some (send pong d h)
handle_client_message d unknown_type h = some (send error_message d h)
handle_client_message d malformed h = some (send error_message d h)

-- GetChatPresence, of one user
unfoldable pub is_online : Hub → Uuid → Bool
is_online h u = ltb 0 (length (members h.user_clients u))

-- shutdown
unfoldable pub shutdown : Hub → Hub
shutdown h = record h {
  clients = [];
  chat_rooms = [];
  user_clients = [];
  heap = λ d. if has h.clients d then record (h.heap d) { closed = true } else h.heap d;
}
