-- ===== src/Socket/Halting.antt =====
-- When the loop of Run (hub.go) waits for ever for room in a channel that only it empties.
use flowra.Base.{
  ℕ, ◌+◌, ◌≤◌, ◌<◌, Uuid, Bool, is_empty, true, false, some, List, [], ◌∷◌, ◌++◌, ◌≡◌, ◌≢◌, refl,
  sym, ap, ◌∙◌, arith, length, length-append, if◌then◌else◌, if-elim,
}
use mathlib.Core.Path.{subst}
use flowra.Socket.Groups.{has}
use flowra.Socket.Hub.{
  Message, presence_changed, Broadcast, to_chat, typing, error_message, ack, pong, registering,
  announcing, Hub, buffer_size, close_client, send, announcements, announce, removed,
  unregister_client, has_other_connections, join_chat, leave_chat, broadcast, handle_client_message,
  ClientMessage, subscribe, unsubscribe, chat_typing, ping, unknown_type, malformed,
}
use flowra.Socket.Steps.{
  Step, connect, read, announced, disconnect, receive, enqueue, dispatch, written, write_failed,
  Run, stay, more, Reach,
}
use flowra.Socket.Shapes.{IsSoundHub, some-eq}
use flowra.Socket.Soundness.{Step-IsSoundHub, Reach-IsSoundHub}

length-announcements : (m : Message) (ks : List Uuid) → length (announcements m ks) ≡ length ks
unfolding announcements
length-announcements m [] = refl
length-announcements m (k ∷ ks) = omega (arith, length-announcements m ks)

-- There are more announcements to send than the channel has room for.
pub record IsStuck (h : Hub) : Type 0 where
  pub left : List Broadcast
  pub to_send : h.loop ≡ announcing left
  pub too_many : buffer_size < length h.queue + length left

announcing-eq : {bs cs : List Broadcast} → announcing bs ≡ announcing cs → bs ≡ cs
announcing-eq e = cc

-- What others than the loop do: the announcements stay and no waiting broadcast goes.
record Grows (h h' : Hub) : Type 0 where
  pub same_loop : h'.loop ≡ h.loop
  pub no_fewer : length h.queue ≤ length h'.queue

Grows-refl : (h : Hub) → Grows h h
Grows-refl h = record { same_loop = refl; no_fewer = omega arith }

send-Grows : (m : Message) (d : ℕ) (h : Hub) → Grows h (send m d h)
unfolding send
send-Grows m d h = record { same_loop = ground arith; no_fewer = ground arith }

join-Grows : (d : ℕ) (k : Uuid) (h : Hub) → Grows h (join_chat d k h)
unfolding join_chat
join-Grows d k h = record { same_loop = ground arith; no_fewer = ground arith }

Grows-trans : {h h' h'' : Hub} → Grows h h' → Grows h' h'' → Grows h h''
Grows-trans f g = record {
  same_loop = g.same_loop ∙ f.same_loop;
  no_fewer = omega (arith, f.no_fewer, g.no_fewer);
}

broadcast-Grows : (b : Broadcast) (h h' : Hub) → broadcast b h ≡ some h' → Grows h h'
unfolding broadcast
broadcast-Grows b h h' e =
    let same_hub : record h { queue = h.queue ++ b ∷ [] } ≡ h' = ground arith in
    subst (Grows h) same_hub
      (record { same_loop = refl; no_fewer = omega (arith, length-append h.queue (b ∷ [])) })

subscribe-Grows :
    (c : Bool) (h left : Hub) (m m' : Message) (d : ℕ)
    → Grows h left
    → Grows h (if c then send m d h else send m' d left)
subscribe-Grows true h left m m' d g = send-Grows m d h
subscribe-Grows false h left m m' d g = Grows-trans g (send-Grows m' d left)

message-Grows :
    (d : ℕ) (m : ClientMessage) (h h' : Hub) → handle_client_message d m h ≡ some h' → Grows h h'
unfolding handle_client_message
message-Grows d (subscribe k) h h' e = subst (Grows h) (some-eq e) (
    subscribe-Grows (is_empty k) h (join_chat d k h) error_message (ack true k) d
      (join-Grows d k h))
message-Grows d (unsubscribe k) h h' e = subst (Grows h) (some-eq e) (
    subscribe-Grows (is_empty k) h (leave_chat d k h) error_message (ack false k) d
      (unfold leave_chat in record { same_loop = refl; no_fewer = omega arith }))
message-Grows d (chat_typing k) h h' e =
    let b = to_chat k (typing k (h.heap d).user) in
    if-elim (λ x. x ≡ some h' → Grows h h') (is_empty k) (some (send error_message d h))
      (broadcast b h) (λ _ e. subst (Grows h) (some-eq e) (send-Grows error_message d h))
      (λ _. broadcast-Grows b h h') e
message-Grows d ping h h' e = subst (Grows h) (some-eq e) (send-Grows pong d h)
message-Grows d unknown_type h h' e = subst (Grows h) (some-eq e) (send-Grows error_message d h)
message-Grows d malformed h h' e = subst (Grows h) (some-eq e) (send-Grows error_message d h)

module _ {h : Hub} (v : IsSoundHub h) (k : IsStuck h) where
  grown-IsStuck : {h' : Hub} → Grows h h' → IsStuck h'
  grown-IsStuck g = record {
    left = k.left;
    to_send = g.same_loop ∙ k.to_send;
    too_many = omega (arith, k.too_many, g.no_fewer);
  }

  -- A channel within its bounds leaves something to send.
  pub never_idle : h.loop ≢ announcing []
  never_idle i =
      let none_left = announcing-eq (sym k.to_send ∙ i) in
      omega (arith, k.too_many, v.queue_bounded, ap length none_left)

  announced-IsStuck : (h' : Hub) → announce h.loop h ≡ some h' → IsStuck h'
  announced-IsStuck h' e = by_left k.left k.to_send k.too_many
    where
      by_left :
          (bs : List Broadcast)
          → h.loop ≡ announcing bs
          → buffer_size < length h.queue + length bs
          → IsStuck h'
      by_left [] i m = absurd (never_idle i)
      by_left (b ∷ bs) i m =
          let sent : announce (announcing (b ∷ bs)) h ≡ some h' =
            ap (λ l. announce l h) (sym i) ∙ e in
          let same_hub : record h { queue = h.queue ++ b ∷ []; loop = announcing bs } ≡ h' =
            unfold announce in ground arith in
          subst IsStuck same_hub (record {
            left = bs;
            to_send = refl;
            too_many = omega (arith, m, length-append h.queue (b ∷ []));
          })

Step-IsStuck : {h h' : Hub} → IsSoundHub h → IsStuck h → Step h h' → IsStuck h'
Step-IsStuck v k (connect d u i n) = absurd (never_idle v k i)
Step-IsStuck v k (read d i) = absurd (registering_no (sym i ∙ k.to_send))
  where
    registering_no : {d : ℕ} {bs : List Broadcast} → registering d ≢ announcing bs
    registering_no e = cc
Step-IsStuck v k (announced h' e) = announced-IsStuck v k h' e
Step-IsStuck v k (disconnect d i) = absurd (never_idle v k i)
Step-IsStuck {h} v k (receive d m h' e) = grown-IsStuck v k (message-Grows d m h h' e)
Step-IsStuck {h} v k (enqueue b h' e) = grown-IsStuck v k (broadcast-Grows b h h' e)
Step-IsStuck v k (dispatch b bs h' i q e) = absurd (never_idle v k i)
Step-IsStuck v k (written d m ms e) =
    grown-IsStuck v k (record { same_loop = refl; no_fewer = omega arith })
Step-IsStuck {h} v k (write_failed d) =
    grown-IsStuck v k (unfold close_client in record { same_loop = refl; no_fewer = omega arith })

Run-IsStuck : {h h' : Hub} → IsSoundHub h → IsStuck h → Run h h' → IsSoundHub h' × IsStuck h'
Run-IsStuck v k stay = (v, k)
Run-IsStuck v k (more r s) =
    let (v', k') = Run-IsStuck v k r in (Step-IsSoundHub v' s, Step-IsStuck v' k' s)

unregistered-IsStuck :
    (h : Hub) (d : ℕ)
    → has h.clients d ≡ true
    → has_other_connections d h ≡ false
    → buffer_size < length h.queue + length (h.heap d).chats
    → IsStuck (unregister_client d h)
unfolding unregister_client removed close_client
unregistered-IsStuck h d r n m =
    let bs = announcements (presence_changed (h.heap d).user false) (h.heap d).chats in
    rw (r, n)
      (record {
        left = bs;
        to_send = refl;
        too_many = omega (
          arith,
          m,
          length-announcements (presence_changed (h.heap d).user false) (h.heap d).chats,
        );
      })

-- Where the last connection of a user goes while the broadcasts that wait and one for each chat of the client
-- are more than 256, the loop of Run never takes anything else again: whatever the clients and the other senders
-- do from then on, the loop is left with announcements to send, to a channel that only it empties.
pub unregister_client-deadlock :
    (h : Hub) (d : ℕ) (h' : Hub)
    → Reach h
    → h.loop ≡ announcing []
    → has h.clients d ≡ true
    → has_other_connections d h ≡ false
    → buffer_size < length h.queue + length (h.heap d).chats
    → Run (unregister_client d h) h'
    → h'.loop ≢ announcing []
unregister_client-deadlock h d h' reached i r n m run =
    let v = Step-IsSoundHub (Reach-IsSoundHub h reached) (disconnect d i) in
    let (v', k') = Run-IsStuck v (unregistered-IsStuck h d r n m) run in never_idle v' k'
