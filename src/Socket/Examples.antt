-- ===== src/Socket/Examples.antt =====
-- The theorems on the hub, at a hub with one client.
use flowra.Base.{
  ℕ, zero, suc, List, length-append, ◌≤◌, ◌≢◌, ◌+◌, ◌<◌, text, same, true, false, ◌&&◌, Option,
  none, some, [], ◌∷◌, ◌++◌, ◌≡◌, refl, sym, ap, ◌∙◌, arith, ok, err, length, ltb, if◌then◌else◌,
}
use mathlib.Core.Path.{subst}
use flowra.Socket.Groups.{has, insert, members, join, put}
use flowra.Socket.Hub.{
  payload, to_chat, Hub, registering, announcing, Broadcast, read_chats, announcements, broadcast,
  closed_channel, buffer_size, new_hub, has_chat, add_chat, update, close_client, offered, send,
  registered, register_client, unregister_client, has_other_connections, join_chat,
  handle_broadcast, subscribe, handle_client_message,
}
use flowra.Socket.Steps.{connected, Reach, start, next, connect, read, receive, enqueue, stay}
use flowra.Socket.Shapes.{IsSoundHub}
use flowra.Socket.Soundness.{Reach-IsSoundHub}
use flowra.Socket.Delivering.{AllOpen, handle_broadcast-buffers, close_client-panics}
use flowra.Socket.Halting.{unregister_client-deadlock}

abbrev after_message : Option Hub → Hub
after_message (some h) = h
after_message none = new_hub

-- Ann connects, and subscribes to the chat "c1".
abbrev with_ann : Hub
with_ann = read_chats 1 (register_client 1 (connected 1 (text "ann") new_hub))

abbrev subscribed : Hub
subscribed = after_message (handle_client_message 1 (subscribe (text "c1")) with_ann)

ann_registering : (register_client 1 (connected 1 (text "ann") new_hub)).loop ≡ registering 1
unfolding register_client registered update members
ann_registering = refl

ann_subscribed : handle_client_message 1 (subscribe (text "c1")) with_ann ≡ some subscribed
unfolding handle_client_message
ann_subscribed = refl

subscribed-Reach : Reach subscribed
subscribed-Reach =
    next (next (next start (connect 1 (text "ann") refl refl)) (read 1 ann_registering))
      (receive 1 (subscribe (text "c1")) subscribed ann_subscribed)

Reach-IsSoundHub_example : IsSoundHub subscribed
Reach-IsSoundHub_example = Reach-IsSoundHub subscribed subscribed-Reach

subscribed-IsSoundHub : IsSoundHub subscribed
subscribed-IsSoundHub = Reach-IsSoundHub subscribed subscribed-Reach

ann-only : (d : ℕ) → has subscribed.clients d ≡ true → 1 ≡ d
unfolding handle_client_message join_chat send offered add_chat update register_client registered
    insert same has_other_connections join put members announcements read_chats
ann-only d h = ground arith

ann-still_open : (subscribed.heap 1).closed ≡ false
unfolding handle_client_message join_chat send offered add_chat update register_client registered
    insert same has_other_connections join put members announcements read_chats
ann-still_open = refl

ann-open : AllOpen subscribed
ann-open d h = ap (λ i. (subscribed.heap i).closed) (sym (ann-only d h)) ∙ ann-still_open

ann-known : has subscribed.clients 1 ≡ true
unfolding handle_client_message join_chat send offered add_chat update register_client registered
    insert same has_other_connections join put members announcements read_chats
ann-known = refl

ann-subscribed : has_chat (subscribed.heap 1) (text "c1") ≡ true
unfolding handle_client_message join_chat send offered add_chat update register_client registered
    insert same has_other_connections join put members announcements read_chats
ann-subscribed = refl

handle_broadcast-buffers_example :
    (h' : Hub) × (handle_broadcast (to_chat (text "c1") (payload (text "hi"))) subscribed ≡ ok h')
    × ((d : ℕ)
        → h'.heap d ≡ (
            if has subscribed.clients d
              && has_chat (subscribed.heap d) (text "c1")
              && ltb (length (subscribed.heap d).buffer) buffer_size
            then record (subscribed.heap d) {
              buffer = (subscribed.heap d).buffer ++ payload (text "hi") ∷ [];
            }
            else subscribed.heap d))
    × (h' ≡ record subscribed { heap = h'.heap })
handle_broadcast-buffers_example =
    handle_broadcast-buffers subscribed-IsSoundHub (text "c1") (payload (text "hi")) ann-open

close_client-panics_example :
    handle_broadcast (to_chat (text "c1") (payload (text "hi"))) (close_client 1 subscribed)
    ≡ err closed_channel
close_client-panics_example =
    close_client-panics subscribed-IsSoundHub 1 (text "c1") (payload (text "hi")) ann-known
      ann-subscribed

-- As many broadcasts as wait.
abbrev waiting : ℕ → List Broadcast
waiting zero = []
waiting (suc n) = waiting n ++ to_chat (text "c1") (payload (text "hi")) ∷ []

length-waiting : (n : ℕ) → length (waiting n) ≡ n
length-waiting zero = refl
length-waiting (suc n) = omega (
  arith,
  length-append (waiting n) (to_chat (text "c1") (payload (text "hi")) ∷ []),
  length-waiting n,
)

abbrev crowded : ℕ → Hub
crowded n = record subscribed { queue = waiting n }

crowded-none : crowded 0 ≡ subscribed
unfolding handle_client_message join_chat send offered add_chat update register_client registered
    insert same has_other_connections join put members announcements read_chats
crowded-none = refl

crowded-room :
    (n : ℕ)
    → suc n ≤ buffer_size
    → broadcast (to_chat (text "c1") (payload (text "hi"))) (crowded n) ≡ some (crowded (suc n))
unfolding broadcast
crowded-room n b = ground (arith, length-waiting n)

crowded-Reach : (n : ℕ) → n ≤ buffer_size → Reach (crowded n)
crowded-Reach zero b = subst Reach (sym crowded-none) subscribed-Reach
crowded-Reach (suc n) b =
    next (crowded-Reach n (omega (arith, b)))
      (enqueue (to_chat (text "c1") (payload (text "hi"))) (crowded (suc n)) (crowded-room n b))

full-idle : (crowded 256).loop ≡ announcing []
unfolding handle_client_message join_chat send offered add_chat update register_client registered
    insert same has_other_connections join put members announcements read_chats
full-idle = refl

ann-alone : has_other_connections 1 (crowded 256) ≡ false
unfolding handle_client_message join_chat send offered add_chat update register_client registered
    insert same has_other_connections join put members announcements read_chats
ann-alone = refl

one_chat : length (subscribed.heap 1).chats ≡ 1
unfolding handle_client_message join_chat send offered add_chat update register_client registered
    insert same has_other_connections join put members announcements read_chats
one_chat = refl

too_many : buffer_size < length (crowded 256).queue + length ((crowded 256).heap 1).chats
too_many = omega (arith, length-waiting 256, one_chat)

-- Ann disconnects while 256 broadcasts wait.
unregister_client-deadlock_example : (unregister_client 1 (crowded 256)).loop ≢ announcing []
unregister_client-deadlock_example =
    unregister_client-deadlock (crowded 256) 1 (unregister_client 1 (crowded 256))
      (crowded-Reach 256 (omega arith)) full-idle ann-known ann-alone too_many stay
