-- ===== src/Socket/Soundness.antt =====
-- What holds of the hub of hub.go in every state that it reaches.
use flowra.Base.{
  ℕ, is_empty, true, false, some, List, ◌∷◌, ◌≡◌, refl, ap, arith, length, ◌==◌, if◌then◌else◌,
  if-elim,
}
use mathlib.Core.Path.{subst}
use flowra.Socket.Groups.{members}
use flowra.Socket.Hub.{
  Message, typing, error_message, ack, pong, to_chat, Hub, new_hub, update, send, join_chat,
  leave_chat, broadcast, ClientMessage, subscribe, unsubscribe, chat_typing, ping, unknown_type,
  malformed, handle_client_message,
}
use flowra.Socket.Steps.{
  Step, connect, read, announced, disconnect, receive, enqueue, dispatch, written, write_failed,
  Reach, start, next,
}
use flowra.Socket.Shapes.{IsSoundHub, with_queue, same_shape, close_client-IsSoundHub, some-eq}
use flowra.Socket.Joining.{
  announce-IsSoundHub, handle_broadcast-IsSoundHub, send-IsSoundHub, broadcast-IsSoundHub,
  join_chat-IsSoundHub, leave_chat-IsSoundHub,
}
use flowra.Socket.Leaving.{
  register_client-IsSoundHub, read_chats-IsSoundHub, unregister_client-IsSoundHub,
}

module _ {h : Hub} (v : IsSoundHub h) where
  handle_client_message-IsSoundHub :
      (d : ℕ) (m : ClientMessage) (h' : Hub) → handle_client_message d m h ≡ some h' → IsSoundHub h'
  unfolding handle_client_message
  handle_client_message-IsSoundHub d (subscribe k) h' e =
      if-elim (λ x. some x ≡ some h' → IsSoundHub h') (is_empty k) (send error_message d h)
        (send (ack true k) d (join_chat d k h))
        (λ _ e. subst IsSoundHub (some-eq e) (send-IsSoundHub v error_message d))
        (λ _ e.
          subst IsSoundHub (some-eq e)
            (send-IsSoundHub (join_chat-IsSoundHub v d k) (ack true k) d))
        e
  handle_client_message-IsSoundHub d (unsubscribe k) h' e =
      if-elim (λ x. some x ≡ some h' → IsSoundHub h') (is_empty k) (send error_message d h)
        (send (ack false k) d (leave_chat d k h))
        (λ _ e. subst IsSoundHub (some-eq e) (send-IsSoundHub v error_message d))
        (λ _ e.
          subst IsSoundHub (some-eq e)
            (send-IsSoundHub (leave_chat-IsSoundHub v d k) (ack false k) d))
        e
  handle_client_message-IsSoundHub d (chat_typing k) h' e =
      let b = to_chat k (typing k (h.heap d).user) in
      if-elim (λ x. x ≡ some h' → IsSoundHub h') (is_empty k) (some (send error_message d h))
        (broadcast b h) (λ _ e. subst IsSoundHub (some-eq e) (send-IsSoundHub v error_message d))
        (λ _. broadcast-IsSoundHub v b h') e
  handle_client_message-IsSoundHub d ping h' e =
      subst IsSoundHub (some-eq e) (send-IsSoundHub v pong d)
  handle_client_message-IsSoundHub d unknown_type h' e =
      subst IsSoundHub (some-eq e) (send-IsSoundHub v error_message d)
  handle_client_message-IsSoundHub d malformed h' e =
      subst IsSoundHub (some-eq e) (send-IsSoundHub v error_message d)

  written-IsSoundHub :
      (d : ℕ) (m : Message) (ms : List Message)
      → (h.heap d).buffer ≡ m ∷ ms
      → IsSoundHub (record h { heap = update h.heap d (record (h.heap d) { buffer = ms }) })
  unfolding update
  written-IsSoundHub d m ms e =
      same_shape v (λ i. if d == i then record (h.heap d) { buffer = ms } else h.heap i)
        (λ i. ground arith) (λ i. ground arith)
        (λ i. ground (arith, v.buffers_bounded d, v.buffers_bounded i, ap length e))

pub Step-IsSoundHub : {h h' : Hub} → IsSoundHub h → Step h h' → IsSoundHub h'
Step-IsSoundHub v (connect d u i n) = register_client-IsSoundHub v d u n
Step-IsSoundHub v (read d i) = read_chats-IsSoundHub v d
Step-IsSoundHub {h} v (announced h' e) = announce-IsSoundHub v h.loop h' e
Step-IsSoundHub v (disconnect d i) = unregister_client-IsSoundHub v d
Step-IsSoundHub v (receive d m h' e) = handle_client_message-IsSoundHub v d m h' e
Step-IsSoundHub v (enqueue b h' e) = broadcast-IsSoundHub v b h' e
Step-IsSoundHub v (dispatch b bs h' i q e) =
    handle_broadcast-IsSoundHub (with_queue v bs (omega (arith, v.queue_bounded, ap length q))) b h'
      e
Step-IsSoundHub v (written d m ms e) = written-IsSoundHub v d m ms e
Step-IsSoundHub v (write_failed d) = close_client-IsSoundHub v d

new_hub-IsSoundHub : IsSoundHub new_hub
unfolding members
new_hub-IsSoundHub = record {
  rooms = λ k d. refl;
  users = λ u d. refl;
  rooms_distinct = λ k. tt;
  users_distinct = λ u. tt;
  rooms_filled = tt;
  users_filled = tt;
  queue_bounded = omega arith;
  buffers_bounded = λ d. omega arith;
}

-- In every state that the hub reaches, by connections, disconnections, messages of clients, broadcasts and failures in
-- any order, its maps agree with its clients: a client is in the room of a chat exactly if it is registered and has
-- subscribed to the chat, and among the connections of a user exactly if it is registered and the user's, who is not empty; no
-- client is listed twice in a group, no group is empty, and the channels hold 256 messages at most.
pub Reach-IsSoundHub : (h : Hub) → Reach h → IsSoundHub h
Reach-IsSoundHub _ start = new_hub-IsSoundHub
Reach-IsSoundHub _ (next r s) = Step-IsSoundHub (Reach-IsSoundHub _ r) s
