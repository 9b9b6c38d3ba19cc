-- ===== src/Socket/Delivering.antt =====
-- Which clients a broadcast reaches, and when the hub (hub.go) comes to a halt.
use flowra.Base.{
  ℕ, Uuid, true, false, ◌&&◌, List, [], ◌∷◌, ◌++◌, ◌≡◌, refl, sym, ap, ◌∙◌, arith, ok, err, ◌>>=◌,
  length, ltb, ◌==◌, ==_iff, if◌then◌else◌, Bool-cases, inl, inr,
}
use flowra.Socket.Groups.{has, members, Distinct}
use flowra.Socket.Hub.{
  Message, to_chat, Client, Hub, closed_channel, buffer_size, has_chat, update, close_client,
  offered, deliver, handle_broadcast, with_heap,
}
use flowra.Socket.Shapes.{IsSoundHub, update_self}

-- No client that is registered is closed.
abbrev pub AllOpen : Hub → Type 0
AllOpen h = (d : ℕ) → has h.clients d ≡ true → (h.heap d).closed ≡ false

offered-closed : (m : Message) (c : Client) → (offered m c).closed ≡ c.closed
unfolding offered
offered-closed m c = ground arith

update-closed :
    (m : Message) (heap : ℕ → Client) (x d : ℕ)
    → (update heap x (offered m (heap x)) d).closed ≡ (heap d).closed
unfolding update
update-closed m heap x d =
    ground (arith, offered-closed m (heap x), ==_iff x d, ap (λ e. (heap e).closed) {x = x} {y = d})

-- The first client, and what is listed behind it.
offered-cons :
    (m : Message) (heap : ℕ → Client) (x : ℕ) (ds : List ℕ) (d : ℕ)
    → has ds x ≡ false
    → (let heap1 = update heap x (offered m (heap x)) in
        if has ds d then offered m (heap1 d) else heap1 d)
      ≡ (if has (x ∷ ds) d then offered m (heap d) else heap d)
unfolding update
offered-cons m heap x ds d h = elim (Bool-cases (x == d)) [
  | inl e ↦
      (let same_d = (==_iff x d).0 e in
        let absent = ap (has ds) (sym same_d) ∙ h in
        ground (arith, ap (λ i. offered m (heap i)) same_d))
  | inr n ↦ ground arith
]

-- A delivery to open clients, none of which is listed twice, offers the message once to each.
deliver_lem :
    (m : Message) (ds : List ℕ) (heap : ℕ → Client)
    → Distinct ds
    → ((d : ℕ) → has ds d ≡ true → (heap d).closed ≡ false)
    → (heap' : ℕ → Client) × (deliver m ds heap ≡ ok heap')
      × ((d : ℕ) → heap' d ≡ (if has ds d then offered m (heap d) else heap d))
unfolding deliver
deliver_lem m [] heap u o = (heap, refl, λ d. refl)
deliver_lem m (x ∷ ds) heap u o =
    let heap1 = update heap x (offered m (heap x)) in
    let (heap', e, f) =
      deliver_lem m ds heap1 u.1 (λ d h. update-closed m heap x d ∙ o d (ground arith)) in
    (
      heap',
      ap (λ c. if c then err closed_channel else deliver m ds heap1) (o x (ground arith)) ∙ e,
      λ d. f d ∙ offered-cons m heap x ds d u.0,
    )

-- A delivery to a closed client panics.
deliver-closed :
    (m : Message) (ds : List ℕ) (heap : ℕ → Client) (d : ℕ)
    → has ds d ≡ true
    → (heap d).closed ≡ true
    → deliver m ds heap ≡ err closed_channel
unfolding deliver
deliver-closed m [] heap d h c = cc
deliver-closed m (x ∷ ds) heap d h c =
    let heap1 = update heap x (offered m (heap x)) in
    elim (Bool-cases (x == d)) [
      | inl e ↦
          ap (λ b. if b then err closed_channel else deliver m ds heap1)
            (ap (λ i. (heap i).closed) ((==_iff x d).0 e) ∙ c)
      | inr n ↦ ground (arith, deliver-closed m ds heap1 d, update-closed m heap x d)
    ]

module _ {h : Hub} (v : IsSoundHub h) where
  -- A broadcast to a chat, where no registered client is closed, succeeds and puts its message, once and behind what is
  -- there, into the buffer of each client that is registered and has subscribed to the chat, unless the buffer is full, and changes nothing
  -- else: neither the other clients nor the maps nor the waiting broadcasts.
  pub handle_broadcast-buffers :
      (k : Uuid) (m : Message)
      → AllOpen h
      → (h' : Hub) × (handle_broadcast (to_chat k m) h ≡ ok h')
        × ((d : ℕ)
            → h'.heap d ≡ (
                if has h.clients d
                  && has_chat (h.heap d) k
                  && ltb (length (h.heap d).buffer) buffer_size
                then record (h.heap d) { buffer = (h.heap d).buffer ++ m ∷ [] }
                else h.heap d))
        × (h' ≡ record h { heap = h'.heap })
  unfolding handle_broadcast
  handle_broadcast-buffers k m o =
      let ds = members h.chat_rooms k in
      let (heap, e, f) =
        deliver_lem m ds h.heap (v.rooms_distinct k) (λ d i. o d (ground (arith, v.rooms k d))) in
      (
        record h { heap = heap },
        ap (λ r. r >>= with_heap h) e ∙ unfold with_heap in refl,
        λ d. f d ∙ unfold offered in ground (arith, v.rooms k d),
        refl,
      )

  -- One client whose connection fails brings down the hub: once a registered client that has subscribed to a chat is
  -- closed by its WritePump, a broadcast to the chat panics, on a closed channel, until the loop has unregistered the client.
  pub close_client-panics :
      (d : ℕ) (k : Uuid) (m : Message)
      → has h.clients d ≡ true
      → has_chat (h.heap d) k ≡ true
      → handle_broadcast (to_chat k m) (close_client d h) ≡ err closed_channel
  unfolding handle_broadcast close_client
  close_client-panics d k m r c =
      ap (λ x. x >>= with_heap (close_client d h))
        (deliver-closed m (members h.chat_rooms k)
          (update h.heap d (record (h.heap d) { closed = true })) d (ground (arith, v.rooms k d))
          (ap (λ x. x.closed) (update_self h.heap d (record (h.heap d) { closed = true }))))
