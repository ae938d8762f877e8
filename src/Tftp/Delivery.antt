-- ===== src/Tftp/Delivery.antt =====
-- A client that asks for a file and acknowledges each block gets the file, whatever datagrams of
-- other peers come in between.
use openipc_defib.Prelude.{
  ℕ, zero, suc, ◌+◌, ◌-◌, ◌*◌, ◌/◌, ◌≤◌, ◌<◌, ◌≡◌, refl, sym, ap, ◌∙◌, arith, List, [], ◌∷◌, ◌++◌,
  append-nil, true, false, ◌||◌, ltb, ◌==◌, if◌then◌else◌, if_cases, Bool-cases, ℕ-cases, some, inl,
  inr, length,
}
use openipc_defib.Struct.{be_value_from}
use openipc_defib.Tftp.{
  Transfer, Stats, Server, put, send, handle_ack, dispatch, datagram_received, serve,
}
use openipc_defib.Tftp.Peers.{sent_to, Untouched, datagram_received-Untouched, Untouched-trans}
use native.Mathlib.Nat.{div-mul-le_self, lt-div-mul-add, mul-le-mul_right}
use openipc_defib.Text.{split}
use openipc_defib.Tftp.{
  default_blocksize, oack_packet, no_options, negotiated, options_of, resolve_file, well_formed,
  first_part, start_transfer, handle_rrq,
}
use openipc_defib.Tftp.Invariant.{negotiated_bounds}
use openipc_defib.Tftp.Serving.{
  ack, send_data_block-stats, Serving, Serving-Untouched, found_here, data_blocks, sent_to-packet,
  send_data_block-Serving, ack-handle_ack, ack-Serving, ack-counted, Delivered, ack-Delivered,
}

-- The ACKs of the blocks from `n` on.
abbrev pub acks : ℕ → ℕ → List (List ℕ)
acks n zero = []
acks n (suc k) = ack n ∷ acks (n + 1) k

-- What one peer sent.
unfoldable pub from : ℕ → List (ℕ × List ℕ) → List (List ℕ)
from addr [] = []
from addr ((a, bytes) ∷ rest) = elim (a == addr) [
  | true ↦ bytes ∷ from addr rest
  | false ↦ from addr rest
]

module _ (addr a : ℕ) (bytes : List ℕ) (rest : List (ℕ × List ℕ)) where
  from_same : (a == addr) ≡ true → from addr ((a, bytes) ∷ rest) ≡ bytes ∷ from addr rest
  unfolding from
  from_same e = rw (e, from)

  from_other : (a == addr) ≡ false → from addr ((a, bytes) ∷ rest) ≡ from addr rest
  unfolding from
  from_other e = rw (e, from)

-- Nothing more from the peer.
quiet :
    (addr : ℕ) (datagrams : List (ℕ × List ℕ)) (s : Server)
    → from addr datagrams ≡ []
    → Untouched addr s (serve datagrams s)
unfolding serve
quiet addr [] s h = record { table = refl; packets = refl; link = refl; counted = omega arith }
quiet addr ((a, bytes) ∷ rest) s h = elim (Bool-cases (a == addr)) [
  | inl same ↦ absurd (cc (from_same addr a bytes rest same))
  | inr other ↦
      Untouched-trans addr s _ _ (datagram_received-Untouched addr a (λ e. ground arith) bytes s) (
        quiet addr rest (datagram_received bytes a s).0
          (sym (from_other addr a bytes rest other) ∙ h))
]

Delivered-after :
    (addr : ℕ) (content : List ℕ) (before : List (List ℕ)) (size n : ℕ) (s s' s'' : Server)
    → s.stats.transfers_complete ≤ s'.stats.transfers_complete
    → Delivered addr content before size n s' s''
    → Delivered addr content before size n s s''
Delivered-after addr content before size n s s' s'' h d = record {
  packets = d.packets;
  whole = d.whole;
  counted = omega (arith, d.counted);
}

Delivered-quiet :
    (addr : ℕ) (content : List ℕ) (before : List (List ℕ)) (size n : ℕ) (s s' s'' : Server)
    → Delivered addr content before size n s s'
    → Untouched addr s' s''
    → Delivered addr content before size n s s''
Delivered-quiet addr content before size n s s' s'' d u = record {
  packets = u.packets ∙ d.packets;
  whole = d.whole;
  counted = omega (arith, d.counted, u.counted);
}

ack_same :
    (addr n a : ℕ) (bytes : List ℕ) (rest : List (ℕ × List ℕ)) (tail : List (List ℕ)) (s : Server)
    → (a == addr) ≡ true
    → from addr ((a, bytes) ∷ rest) ≡ ack n ∷ tail
    → n < 65536
    → (datagram_received bytes a s ≡ handle_ack n addr s) × (from addr rest ≡ tail)
ack_same addr n a bytes rest tail s same h small =
    let both : bytes ∷ from addr rest ≡ ack n ∷ tail = sym (from_same addr a bytes rest same) ∙ h in
    let ea : a ≡ addr = ground arith in
    let eb : bytes ≡ ack n = cc in (rw (ea, eb) (ack-handle_ack addr n s small), cc)

-- One datagram of the peer and then the rest, whatever others send.
serve_others :
    (addr : ℕ) (content : List ℕ) (before : List (List ℕ)) (size n k : ℕ)
    (datagrams : List (ℕ × List ℕ)) (s : Server)
    → Serving addr content before size n s
    → from addr datagrams ≡ acks n (suc k)
    → 0 < size
    → n + k < 65536
    → (n + k) * size ≤ length content + size
    → length content < (n + k) * size
    → Delivered addr content before size (n + k) s (serve datagrams s)
unfolding serve from
serve_others addr content before size n k [] s v h pos small inside past = absurd (cc)
serve_others addr content before size n k ((a, bytes) ∷ rest) s v h pos small inside past =
    elim (Bool-cases (a == addr)) [
      | inr other ↦
          let u = datagram_received-Untouched addr a (λ e. ground arith) bytes s in
          Delivered-after addr content before size (n + k) s _ _ u.counted (
            serve_others addr content before size n k rest (datagram_received bytes a s).0
              (Serving-Untouched addr content before size n s _ u v)
              (sym (from_other addr a bytes rest other) ∙ h) pos small inside past)
      | inl same ↦
          let here = ack_same addr n a bytes rest (acks (n + 1) k) s same h (omega arith) in
          rw here.0 (elim (ℕ-cases k 0) [
            | inl last ↦
                let e : n + k ≡ n = omega arith in
                rw e (
                  Delivered-quiet addr content before size n s _ _
                    (ack-Delivered addr content before size n s v (rw e at past))
                    (quiet addr rest _ (here.1 ∙ ap (acks (n + 1)) last)))
            | inr more ↦
                let e : k ≡ suc (k - 1) = omega arith in
                let m : n + 1 + (k - 1) ≡ n + k = omega arith in
                let before_last : (n + 1) * size ≤ (n + k) * size =
                  mul-le-mul_right size (omega arith) in
                let next : (n + 1) * size ≡ n * size + size = grind arith in
                rw (← m) (
                  Delivered-after addr content before size (n + 1 + (k - 1)) s _ _
                    (ack-counted addr n s)
                    (serve_others addr content before size (n + 1) (k - 1) rest
                      (handle_ack n addr s).0
                      (ack-Serving addr content before size n s v pos (omega arith) (omega arith))
                      (here.1 ∙ ap (acks (n + 1)) e) pos (omega arith) (rw m inside) (rw m past)))
          ])
    ]

-- A read request, and the number of the last block of `content`.
abbrev pub request : List ℕ → List ℕ
request body = 0 ∷ 1 ∷ body

abbrev pub last_block : List ℕ → ℕ → ℕ
last_block content size = length content / size + 1

-- The client's ACKs: an OACK is acknowledged with block 0 first.
abbrev pub replies : List (List ℕ × List ℕ) → List ℕ → List (List ℕ)
replies options content =
    let last = last_block content (negotiated options) in
    if no_options options || negotiated options == default_blocksize
    then acks 1 last
    else acks 0 (suc last)

-- What goes out before the first block: the OACK, unless the block size is the default.
abbrev pub greeting : List (List ℕ × List ℕ) → List (List ℕ)
greeting options =
    if no_options options || negotiated options == default_blocksize
    then []
    else oack_packet (negotiated options) ∷ []

request-handle_rrq :
    (addr : ℕ) (body : List ℕ) (s : Server)
    → datagram_received (request body) addr s ≡ handle_rrq body addr s
unfolding datagram_received dispatch be_value_from handle_rrq
request-handle_rrq addr body s =
    let long : ltb (length (request body)) 2 ≡ false = ground arith in rw long refl

last_bounds :
    (content : List ℕ) (size : ℕ)
    → 0 < size
    → (last_block content size * size ≤ length content + size)
      × (length content < last_block content size * size)
last_bounds content size pos =
    let k = length content / size in
    let e : (k + 1) * size ≡ k * size + size = grind arith in
    (
      omega (arith, div-mul-le_self (length content) size),
      omega (arith, lt-div-mul-add {a = length content} pos),
    )

send-stats : (addr : ℕ) (packet : List ℕ) (s : Server) → (send addr packet s).stats ≡ s.stats
unfolding send
send-stats addr packet s =
    if_cases (λ (r : Server). r.stats ≡ s.stats) s.connected (λ on. refl) (λ off. refl)

oack-Serving :
    (addr : ℕ) (content : List ℕ) (size : ℕ) (t : Transfer) (s : Server)
    → t.content ≡ content
    → t.blocksize ≡ size
    → t.block_num ≡ 0
    → t.complete ≡ false
    → s.connected ≡ true
    → Serving addr content
        (sent_to addr s.outbox ++ oack_packet size ∷ [])
        size
        0
        (send addr (oack_packet size) (record s { transfers = put addr t s.transfers }))
unfolding send data_blocks
oack-Serving addr content size t s hc hs hn going on =
    let none_sent : ltb (length content) (0 * size) ≡ false = ground arith in
    if_cases (Serving addr content (sent_to addr s.outbox ++ oack_packet size ∷ []) size 0)
      s.connected
      (λ linked. record {
        t = _;
        there = found_here addr t s.transfers;
        whole = hc;
        block = hs;
        number = hn;
        end = going ∙ sym none_sent;
        link = on;
        sent = sent_to-packet addr (oack_packet size) s.outbox ∙ sym (append-nil _);
      })
      (λ unlinked. absurd (cc))

start_transfer-Delivered :
    (addr : ℕ) (content : List ℕ) (options : List (List ℕ × List ℕ)) (rest : List (ℕ × List ℕ))
    (s : Server)
    → s.connected ≡ true
    → last_block content (negotiated options) < 65536
    → from addr rest ≡ replies options content
    → Delivered addr content
        (sent_to addr s.outbox ++ greeting options)
        (negotiated options)
        (last_block content (negotiated options))
        s
        (serve rest (start_transfer addr content options s).0)
unfolding start_transfer data_blocks
start_transfer-Delivered addr content options rest s on small h =
    let size = negotiated options in
    let pos : 0 < size = omega (arith, negotiated_bounds options) in
    let bounds = last_bounds content size pos in
    let t : Transfer = record {
      content = content;
      blocksize = size;
      block_num = 0;
      complete = false;
      retries = 0;
    } in
    let last = last_block content size in
    let before = sent_to addr s.outbox in
    let flip : 1 + length content / size ≡ last = omega arith in
    let succ : last ≡ suc (length content / size) = omega arith in
    let from_zero : 0 + last ≡ last = omega arith in
    let s' = record s { transfers = put addr t s.transfers } in
    elim (Bool-cases (no_options options || size == default_blocksize)) [
      | inl plain ↦
          let v =
            send_data_block-Serving addr content before size 0 t s' refl refl refl refl
              (omega arith) pos (omega arith) on (sym (append-nil before)) in
          let served =
            serve_others addr content before size 1 (length content / size) rest _ v
              (h ∙ rw plain (ap (acks 1) succ)) pos (omega arith) (rw flip bounds.0)
              (rw flip bounds.1) in
          rw (plain, append-nil)
            (Delivered-after addr content before size last s _ _
              (omega
                (arith, ap (λ (c : Stats). c.transfers_complete) (send_data_block-stats addr t s')))
              (rw flip at served))
      | inr agreed ↦
          let greeted = before ++ oack_packet size ∷ [] in
          let served =
            serve_others addr content greeted size 0 last rest _
              (oack-Serving addr content size t s refl refl refl refl on) (h ∙ rw agreed refl) pos
              (rw from_zero small) (rw from_zero bounds.0) (rw from_zero bounds.1) in
          rw agreed (
            Delivered-after addr content greeted size last s _ _
              (omega (
                arith,
                ap (λ (c : Stats). c.transfers_complete) (send-stats addr (oack_packet size) s'),
              ))
              (rw from_zero at served))
    ]

-- `_handle_rrq` finds the file in the server with one more request counted.
handle_rrq-start :
    (addr : ℕ) (body content : List ℕ) (s : Server)
    → well_formed (split 0 body) ≡ true
    → resolve_file (first_part (split 0 body)) s ≡ some content
    → handle_rrq body addr s
      ≡ start_transfer addr content
          (options_of (split 0 body))
          (record s { stats = record s.stats { requests = s.stats.requests + 1 } })
unfolding handle_rrq resolve_file
handle_rrq-start addr body content s good there = rw (good, there) refl

-- A peer asks for a file that the server has (by its name, base name or default) and whose last
-- block has a number below 65536; it acknowledges the blocks in order, each once, with block 0
-- first if the server agrees to another block size than 512, and sends nothing else. Then, whatever
-- datagrams of other peers come in between, what it is sent is the OACK if there is one, and then
-- exactly the DATA packets with the numbers from 1 to the last, which carry the file's bytes from
-- their block on and which together are the file; and the server counts one more completed
-- transfer.
pub serve-Delivered :
    (addr : ℕ) (body content : List ℕ) (rest : List (ℕ × List ℕ)) (s : Server)
    → well_formed (split 0 body) ≡ true
    → resolve_file (first_part (split 0 body)) s ≡ some content
    → s.connected ≡ true
    → last_block content (negotiated (options_of (split 0 body))) < 65536
    → from addr rest ≡ replies (options_of (split 0 body)) content
    → Delivered addr content
        (sent_to addr s.outbox ++ greeting (options_of (split 0 body)))
        (negotiated (options_of (split 0 body)))
        (last_block content (negotiated (options_of (split 0 body))))
        s
        (serve ((addr, request body) ∷ rest) s)
unfolding serve
serve-Delivered addr body content rest s good there on small h =
    let counted : Server = record s {
      stats = record s.stats { requests = s.stats.requests + 1 };
    } in
    let began = request-handle_rrq addr body s ∙ handle_rrq-start addr body content s good there in
    let d =
      start_transfer-Delivered addr content (options_of (split 0 body)) rest counted on small h in
    rw began (record { packets = d.packets; whole = d.whole; counted = d.counted })
