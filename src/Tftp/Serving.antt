-- ===== src/Tftp/Serving.antt =====
-- A peer that is served a file, block by block.
use openipc_defib.Prelude.{
  ℕ, zero, suc, ◌+◌, ◌-◌, ◌*◌, ◌≤◌, ◌<◌, ◌≡◌, refl, ap, ◌∙◌, arith, List, [], ◌∷◌, ◌++◌, append-nil,
  append_assoc, true, false, ◌&&◌, ◌||◌, ltb, ◌==◌, if_cases, some, inl, inr, length, length-take,
  length-drop, take, drop, take_all, slice, map, map-append,
}
use openipc_defib.Prelude.Result.{Result, Option-cases}
use openipc_defib.Struct.{be_value, be_value_from, be_bytes, be_value-be_bytes}
use openipc_defib.Tftp.{
  Transfer, Stats, Server, find, put, send, send_data_block, block_of, data_packet, acknowledged,
  handle_ack, dispatch, datagram_received,
}
use openipc_defib.Slices.{join, join-append}
use openipc_defib.Tftp.Peers.{sent_to, sent_to-append, find-put, Untouched}

abbrev pub ack : ℕ → List ℕ
ack n = 0 ∷ 4 ∷ be_bytes 2 n

-- The DATA packets 1 to `n` of a file that is sent in blocks of `size` bytes.
unfoldable pub data_blocks : ℕ → List ℕ → ℕ → List (List ℕ)
data_blocks size content zero = []
data_blocks size content (suc n) =
    data_blocks size content n ++ (0 ∷ 3 ∷ be_bytes 2 (suc n) ++ slice (n * size) size content) ∷ []

-- The peer at `addr` is served `content`: block `n` was the last, and before it went the others.
pub record Serving (addr : ℕ) (content : List ℕ) (before : List (List ℕ)) (size n : ℕ) (s : Server)
    : Type 0 where
  pub t : Transfer
  pub there : find addr s.transfers ≡ some t
  pub whole : t.content ≡ content
  pub block : t.blocksize ≡ size
  pub number : t.block_num ≡ n
  pub end : t.complete ≡ ltb (length content) (n * size)
  pub link : s.connected ≡ true
  pub sent : sent_to addr s.outbox ≡ before ++ data_blocks size content n

pub Serving-Untouched :
    (addr : ℕ) (content : List ℕ) (before : List (List ℕ)) (size n : ℕ) (s s' : Server)
    → Untouched addr s s'
    → Serving addr content before size n s
    → Serving addr content before size n s'
Serving-Untouched addr content before size n s s' u v = record {
  t = v.t;
  there = u.table ∙ v.there;
  whole = v.whole;
  block = v.block;
  number = v.number;
  end = v.end;
  link = u.link ∙ v.link;
  sent = u.packets ∙ v.sent;
}

take-nil : (n : ℕ) → ◌≡◌ {A = List ℕ} (take n []) []
take-nil zero = refl
take-nil (suc n) = refl

take-slice : (n m : ℕ) (xs : List ℕ) → take n xs ++ slice n m xs ≡ take (n + m) xs
take-slice zero m xs = let e : 0 + m ≡ m = omega arith in rw e refl
take-slice (suc n) m [] = let e : suc n + m ≡ suc (n + m) = omega arith in rw e (take-nil m)
take-slice (suc n) m (x ∷ xs) =
    let e : suc n + m ≡ suc (n + m) = omega arith in
    rw e (ap (λ (t : List ℕ). x ∷ t) (take-slice n m xs))

pub found_here :
    (addr : ℕ) (t : Transfer) (m : List (ℕ × Transfer)) → find addr (put addr t m) ≡ some t
found_here addr t m =
    let same : (addr == addr) ≡ true = ground arith in find-put addr addr t m ∙ rw same refl

pub sent_to-packet :
    (addr : ℕ) (packet : List ℕ) (outbox : List (ℕ × List ℕ))
    → sent_to addr (outbox ++ (addr, packet) ∷ []) ≡ sent_to addr outbox ++ packet ∷ []
unfolding sent_to
sent_to-packet addr packet outbox =
    let same : (addr == addr) ≡ true = ground arith in
    sent_to-append addr outbox ((addr, packet) ∷ []) ∙ rw same refl

-- The next packet continues those that were sent.
data_packet-continues :
    (content : List ℕ) (before : List (List ℕ)) (size n : ℕ) (t : Transfer)
    → t.content ≡ content
    → t.blocksize ≡ size
    → t.block_num ≡ n
    → (before ++ data_blocks size content n)
        ++ data_packet (t.block_num + 1) (block_of t (t.block_num + 1)) ∷ []
      ≡ before ++ data_blocks size content (n + 1)
unfolding data_blocks
data_packet-continues content before size n t hc hs hn =
    let back : n + 1 - 1 ≡ n = omega arith in
    let next : n + 1 ≡ suc n = omega arith in rw (hc, hs, hn, back, next, append_assoc) refl

-- The packets' blocks together are the file's front.
pub join-data_blocks :
    (size n : ℕ) (content : List ℕ)
    → join (map (drop 4) (data_blocks size content n)) ≡ take (n * size) content
unfolding data_blocks be_bytes
join-data_blocks size zero content = let none_yet : 0 * size ≡ 0 = omega arith in rw none_yet refl
join-data_blocks size (suc n) content =
    let next : suc n * size ≡ n * size + size = grind arith in
    let block = slice (n * size) size content in
    rw
      (
        map-append (drop 4) (data_blocks size content n)
            ((0 ∷ 3 ∷ be_bytes 2 (suc n) ++ block) ∷ []),
        join-append (map (drop 4) (data_blocks size content n)) (block ∷ []),
        join-data_blocks size n content,
        append-nil,
        next,
      )
      (take-slice (n * size) size content)

-- It is the last block if it is short.
short_block :
    (content : List ℕ) (size n : ℕ) (t : Transfer)
    → t.content ≡ content
    → t.blocksize ≡ size
    → t.block_num ≡ n
    → t.complete ≡ false
    → n * size ≤ length content
    → 0 < size
    → t.complete || ltb (length (block_of t (t.block_num + 1))) t.blocksize
      ≡ ltb (length content) ((n + 1) * size)
short_block content size n t hc hs hn going inside pos =
    let back : n + 1 - 1 ≡ n = omega arith in
    let next : (n + 1) * size ≡ n * size + size = grind arith in
    rw (going, hs, hn, hc, back, next, length-take, length-drop) (ground arith)

-- The next block, where `struct.pack` takes its number.
pub send_data_block-Serving :
    (addr : ℕ) (content : List ℕ) (before : List (List ℕ)) (size n : ℕ) (t : Transfer) (s : Server)
    → t.content ≡ content
    → t.blocksize ≡ size
    → t.block_num ≡ n
    → t.complete ≡ false
    → n * size ≤ length content
    → 0 < size
    → n + 1 < 65536
    → s.connected ≡ true
    → sent_to addr s.outbox ≡ before ++ data_blocks size content n
    → Serving addr content before size (n + 1) (send_data_block addr t s).0
unfolding send_data_block send
send_data_block-Serving addr content before size n t s hc hs hn going inside pos small on sent =
    if_cases (λ (r : Server × Result (Unit {0})). Serving addr content before size (n + 1) r.0)
      (ltb (t.block_num + 1) 65536)
      (λ fits.
        if_cases (Serving addr content before size (n + 1)) s.connected
          (λ linked. record {
            t = _;
            there = found_here addr _ s.transfers;
            whole = hc;
            block = hs;
            number = ap (λ (k : ℕ). k + 1) hn;
            end = short_block content size n t hc hs hn going inside pos;
            link = on;
            sent =
                sent_to-packet addr _ s.outbox
                ∙ ap
                    (λ (x : List (List ℕ)).
                      x ++ data_packet (t.block_num + 1) (block_of t (t.block_num + 1)) ∷ [])
                    sent
                ∙ data_packet-continues content before size n t hc hs hn;
          })
          (λ unlinked. absurd (cc)))
      (λ overflow. absurd (ground arith))

pub send_data_block-stats :
    (addr : ℕ) (t : Transfer) (s : Server) → (send_data_block addr t s).0.stats ≡ s.stats
unfolding send_data_block send
send_data_block-stats addr t s =
    if_cases (λ (r : Server × Result (Unit {0})). r.0.stats ≡ s.stats) (ltb (t.block_num + 1) 65536)
      (λ fits. if_cases (λ (r : Server). r.stats ≡ s.stats) s.connected (λ on. refl) (λ off. refl))
      (λ overflow. refl)

pub ack-handle_ack :
    (addr n : ℕ) (s : Server) → n < 65536 → datagram_received (ack n) addr s ≡ handle_ack n addr s
unfolding datagram_received dispatch be_bytes handle_ack be_value_from
ack-handle_ack addr n s small =
    let e : be_value (be_bytes 2 n) ≡ n = be_value-be_bytes 2 n small in rw e refl

acknowledged-Serving :
    (addr : ℕ) (content : List ℕ) (before : List (List ℕ)) (size n : ℕ) (t : Transfer) (s : Server)
    → t.content ≡ content
    → t.blocksize ≡ size
    → t.block_num ≡ n
    → t.complete ≡ false
    → n * size ≤ length content
    → 0 < size
    → n + 1 < 65536
    → s.connected ≡ true
    → sent_to addr s.outbox ≡ before ++ data_blocks size content n
    → Serving addr content before size (n + 1) (acknowledged addr t s).0
unfolding acknowledged
acknowledged-Serving addr content before size n t s hc hs hn going inside pos small on sent =
    if_cases (λ (r : Server × Result (Unit {0})). Serving addr content before size (n + 1) r.0)
      t.complete (λ ended. absurd (cc))
      (λ more.
        send_data_block-Serving addr content before size n (record t { retries = 0 }) _ hc hs hn
          going inside pos small on sent)

-- An ACK of a block that was not the last is answered with the next.
pub ack-Serving :
    (addr : ℕ) (content : List ℕ) (before : List (List ℕ)) (size n : ℕ) (s : Server)
    → Serving addr content before size n s
    → 0 < size
    → n + 1 < 65536
    → n * size ≤ length content
    → Serving addr content before size (n + 1) (handle_ack n addr s).0
unfolding handle_ack
ack-Serving addr content before size n s v pos small inside =
    let going : v.t.complete ≡ false = v.end ∙ ground arith in
    rw (v.there, handle_ack)
      (if_cases (λ (r : Server × Result (Unit {0})). Serving addr content before size (n + 1) r.0)
        (n == 0 && v.t.block_num == 0)
        (λ first.
          send_data_block-Serving addr content before size n v.t s v.whole v.block v.number going
            inside pos small v.link v.sent)
        (λ later.
          if_cases
            (λ (r : Server × Result (Unit {0})). Serving addr content before size (n + 1) r.0)
            (n == v.t.block_num)
            (λ matches.
              acknowledged-Serving addr content before size n v.t s v.whole v.block v.number going
                inside pos small v.link v.sent)
            (λ stale. absurd (ground (arith, v.number)))))

-- Counting goes on through a block.
pub ack-counted :
    (addr n : ℕ) (s : Server)
    → s.stats.transfers_complete ≤ (handle_ack n addr s).0.stats.transfers_complete
unfolding handle_ack acknowledged
ack-counted addr n s =
    let P = λ (r : Server × Result (Unit {0})).
      s.stats.transfers_complete ≤ r.0.stats.transfers_complete in
    elim (Option-cases (find addr s.transfers)) [
      | inl missing ↦ rw (missing, handle_ack) (omega arith)
      | inr (t, there) ↦
          rw (there, handle_ack)
            (if_cases P (n == 0 && t.block_num == 0)
              (λ first.
                omega (
                  arith,
                  ap (λ (c : Stats). c.transfers_complete) (send_data_block-stats addr t s),
                ))
              (λ later.
                if_cases P (n == t.block_num)
                  (λ matches.
                    if_cases P t.complete (λ ended. omega arith)
                      (λ going. omega (
                        arith,
                        ap (λ (c : Stats). c.transfers_complete)
                            (send_data_block-stats addr (record t { retries = 0 }) _),
                      )))
                  (λ stale. omega arith)))
    ]

-- Exactly the DATA packets 1 to `n` went to `addr` behind what `before` lists, their blocks are
-- `content`, and one more transfer counts as complete than in `s`.
pub record Delivered (addr : ℕ) (content : List ℕ) (before : List (List ℕ)) (size n : ℕ)
    (s s' : Server) : Type 0 where
  pub packets : sent_to addr s'.outbox ≡ before ++ data_blocks size content n
  pub whole : join (map (drop 4) (data_blocks size content n)) ≡ content
  pub counted : s.stats.transfers_complete < s'.stats.transfers_complete

-- The ACK of the last block ends the transfer.
pub ack-Delivered :
    (addr : ℕ) (content : List ℕ) (before : List (List ℕ)) (size n : ℕ) (s : Server)
    → Serving addr content before size n s
    → length content < n * size
    → Delivered addr content before size n s (handle_ack n addr s).0
unfolding handle_ack acknowledged
ack-Delivered addr content before size n s v past =
    let P = λ (r : Server × Result (Unit {0})). Delivered addr content before size n s r.0 in
    let ended : v.t.complete ≡ true = v.end ∙ ground arith in
    let all : take (n * size) content ≡ content = take_all (n * size) content (omega arith) in
    rw (v.there, handle_ack)
      (if_cases P (n == 0 && v.t.block_num == 0)
        (λ first.
          let none_sent : n ≡ 0 = ground arith in
          let nothing : n * size ≡ 0 = rw none_sent (omega arith) in absurd (omega arith))
        (λ later.
          if_cases P (n == v.t.block_num)
            (λ matches.
              if_cases P v.t.complete
                (λ done. record {
                  packets = v.sent;
                  whole = join-data_blocks size n content ∙ all;
                  counted = omega arith;
                })
                (λ going. absurd (cc)))
            (λ stale. absurd (ground (arith, v.number)))))
