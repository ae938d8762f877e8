-- ===== src/Agent/Receive/Stream.antt =====
-- The receive loop sees the bytes as one stream: how they were cut into reads does not matter.
use openipc_defib.Prelude.{
  ℕ, ◌+◌, ◌≤◌, ◌<◌, ◌≡◌, refl, sym, ap, ◌∙◌, arith, List, [], ◌∷◌, ◌++◌, append_assoc, append-nil,
}
use openipc_defib.Prelude.{none, some, false, ◌⊎◌, inl, inr, length, length-append, All}
use openipc_defib.Prelude.Result.{ok, Option-cases}
use openipc_defib.Agent.Packet.{Packet, parse_packet, max_packet_size}
use openipc_defib.Agent.Receive.{
  Event, chunk, silence, deadline, is_empty, packet_at, next_frame, Consumed, got, pending, consume,
  Received, receive_loop, recv_packet,
}

-- The two ways in which a byte is taken.
module _ (frame : List ℕ) (b : ℕ) (bs : List ℕ) where
  pub consume_found : {p : Packet} → packet_at frame b ≡ some p → consume frame (b ∷ bs) ≡ got p bs
  unfolding consume
  consume_found h = rw (h, consume)

  pub consume_next :
      packet_at frame b ≡ none → consume frame (b ∷ bs) ≡ consume (next_frame frame b) bs
  unfolding consume
  consume_next h = rw (h, consume)

-- More bytes behind those that were consumed.
abbrev pub and_then : Consumed → List ℕ → Consumed
and_then (got p rest) more = got p (rest ++ more)
and_then (pending frame) more = consume frame more

pub consume-append :
    (frame xs ys : List ℕ) → consume frame (xs ++ ys) ≡ and_then (consume frame xs) ys
consume-append frame [] ys = unfold consume in refl
consume-append frame (x ∷ xs) ys = elim (Option-cases (packet_at frame x)) [
  | inl h ↦
      rw (consume_next frame x (xs ++ ys) h, consume_next frame x xs h)
        (consume-append (next_frame frame x) xs ys)
  | inr (p, h) ↦ rw (consume_found frame x (xs ++ ys) h, consume_found frame x xs h)
]

-- Bytes other than the delimiter pile up in the frame buffer while it has room.
pub consume_stuffed :
    (frame body rest : List ℕ)
    → All (λ b. 1 ≤ b) body
    → length frame + length body ≤ max_packet_size
    → consume frame (body ++ rest) ≡ consume (frame ++ body) rest
consume_stuffed frame [] rest clean room = rw append-nil
consume_stuffed frame (b ∷ body) rest clean room =
    let size = length-append frame (b ∷ []) in
    let skip : packet_at frame b ≡ none = unfold packet_at in ground arith in
    let kept : next_frame frame b ≡ frame ++ b ∷ [] = unfold next_frame in ground arith in
    rw (consume_next frame b (body ++ rest) skip, kept)
      (rw append_assoc at
        (consume_stuffed (frame ++ b ∷ []) body rest clean.1 (omega (arith, size))))

-- The delimiter behind a body that parses completes the packet.
pub consume_packet :
    (body rest : List ℕ) (p : Packet)
    → All (λ b. 1 ≤ b) body
    → length body ≤ max_packet_size
    → 0 < length body
    → parse_packet body ≡ ok p
    → consume [] (body ++ (0 ∷ rest)) ≡ got p rest
consume_packet body rest p clean room some_body good =
    let found : packet_at body 0 ≡ some p =
      unfold packet_at in rw (not_empty body some_body, good) in
    consume_stuffed [] body (0 ∷ rest) clean (omega arith) ∙ consume_found body 0 rest found
  where
    not_empty : (xs : List ℕ) → 0 < length xs → is_empty xs ≡ false
    not_empty [] h = absurd (omega arith)
    not_empty (x ∷ xs) h = refl

-- The bytes that the reads bring, up to the first deadline.
unfoldable pub bytes_in : List Event → List ℕ
bytes_in [] = []
bytes_in (chunk bytes ∷ events) = bytes ++ bytes_in events
bytes_in (silence ∷ events) = bytes_in events
bytes_in (deadline ∷ events) = []

-- No deadline passes.
abbrev pub InTime : List Event → Type 0
InTime [] = Unit
InTime (chunk bytes ∷ events) = InTime events
InTime (silence ∷ events) = InTime events
InTime (deadline ∷ events) = ⊥

-- The receiver `r` returned `p`, and what is left of the stream is `rest`.
pub record Delivers (r : Received) (p : Packet) (rest : List ℕ) : Type 0 where
  pub result : r.result ≡ ok p
  pub rest_eq : r.leftover ++ bytes_in r.events ≡ rest
  pub in_time : InTime r.events

Consumed-cases :
    (c : Consumed)
    → ((p : Packet) × (rest : List ℕ) × (c ≡ got p rest)) ⊎ ((frame : List ℕ) × (c ≡ pending frame))
Consumed-cases (got p rest) = inl (p, rest, refl)
Consumed-cases (pending frame) = inr (frame, refl)

got_injective : (p q : Packet) (xs ys : List ℕ) → got p xs ≡ got q ys → (p ≡ q) × (xs ≡ ys)
got_injective p q xs ys h = (cc, cc)

receive_loop-Delivers :
    (events : List Event) (frame rest : List ℕ) (p : Packet)
    → InTime events
    → consume frame (bytes_in events) ≡ got p rest
    → Delivers (receive_loop frame events) p rest
unfolding bytes_in receive_loop
receive_loop-Delivers [] frame rest p t h = unfold consume in cc
receive_loop-Delivers (silence ∷ events) frame rest p t h =
    receive_loop-Delivers events frame rest p t h
receive_loop-Delivers (deadline ∷ events) frame rest p t h = absurd t
receive_loop-Delivers (chunk bytes ∷ events) frame rest p t h =
    let h' = sym (consume-append frame bytes (bytes_in events)) ∙ h in
    elim (Consumed-cases (consume frame bytes)) [
      | inl (q, r, e) ↦
          let same = got_injective q p (r ++ bytes_in events) rest (rw e at h') in
          rw (e, receive_loop) (record { result = ap ok same.0; rest_eq = same.1; in_time = t })
      | inr (frame', e) ↦
          rw (e, receive_loop) (receive_loop-Delivers events frame' rest p t (rw e at h'))
    ]

-- If the stream that the leftover bytes and the reads make up starts with a packet, `recv_packet`
-- returns it and keeps the rest of the stream.
pub recv_packet-Delivers :
    (leftover rest : List ℕ) (events : List Event) (p : Packet)
    → InTime events
    → consume [] (leftover ++ bytes_in events) ≡ got p rest
    → Delivers (recv_packet leftover events) p rest
unfolding recv_packet
recv_packet-Delivers leftover rest events p t h =
    let h' = sym (consume-append [] leftover (bytes_in events)) ∙ h in
    elim (Consumed-cases (consume [] leftover)) [
      | inl (q, r, e) ↦
          let same = got_injective q p (r ++ bytes_in events) rest (rw e at h') in
          rw (e, recv_packet) (record { result = ap ok same.0; rest_eq = same.1; in_time = t })
      | inr (frame', e) ↦
          rw (e, recv_packet) (receive_loop-Delivers events frame' rest p t (rw e at h'))
    ]
