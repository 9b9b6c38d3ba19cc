-- ===== src/Socket/Steps.antt =====
-- The hub and its clients as they run: the loop of Run in hub.go takes one register, unregister or broadcast at a time, once
-- it is done with the one before; the goroutines of the clients (ReadPump and WritePump of client.go) and the senders of
-- broadcasts come between, also between the sends of an announcement.
use flowra.Base.{ℕ, Uuid, some, List, [], ◌∷◌, ◌≡◌, false, ok}
use flowra.Socket.Groups.{has}
use flowra.Socket.Hub.{
  Message, Broadcast, Hub, new_client, new_hub, update, close_client, registering, announcing,
  announce, read_chats, register_client, unregister_client, handle_broadcast, broadcast,
  ClientMessage, handle_client_message,
}

-- HandleWebSocket of internal/handler/websocket/handler.go: a new client, which the loop of Run registers.
abbrev pub connected : ℕ → Uuid → Hub → Hub
connected d u h = record h { heap = update h.heap d (new_client u) }

pub data Step (h : Hub) : Hub → Type 0 where
  connect :
      (d : ℕ) (u : Uuid)
      → h.loop ≡ announcing []
      → has h.clients d ≡ false
      → Step h (register_client d (connected d u h))
  read : (d : ℕ) → h.loop ≡ registering d → Step h (read_chats d h)
  announced : (h' : Hub) → announce h.loop h ≡ some h' → Step h h'
  disconnect : (d : ℕ) → h.loop ≡ announcing [] → Step h (unregister_client d h)
  receive :
      (d : ℕ) (m : ClientMessage) (h' : Hub) → handle_client_message d m h ≡ some h' → Step h h'
  enqueue : (b : Broadcast) (h' : Hub) → broadcast b h ≡ some h' → Step h h'
  dispatch :
      (b : Broadcast) (bs : List Broadcast) (h' : Hub)
      → h.loop ≡ announcing []
      → h.queue ≡ b ∷ bs
      → handle_broadcast b (record h { queue = bs }) ≡ ok h'
      → Step h h'
  -- WritePump writes the oldest message to the connection.
  written :
      (d : ℕ) (m : Message) (ms : List Message)
      → (h.heap d).buffer ≡ m ∷ ms
      → Step h (record h { heap = update h.heap d (record (h.heap d) { buffer = ms }) })
  -- WritePump ends, by an error of the connection, and closes the client.
  write_failed : (d : ℕ) → Step h (close_client d h)

-- Any number of steps.
pub data Run (h : Hub) : Hub → Type 0 where
  stay : Run h h
  more : {h' h'' : Hub} → Run h h' → Step h' h'' → Run h h''

pub data Reach : Hub → Type 0 where
  start : Reach new_hub
  next : {h h' : Hub} → Reach h → Step h h' → Reach h'
