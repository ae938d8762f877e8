-- ===== src/Tftp/Peers.antt =====
-- A datagram touches nothing of another peer.
use openipc_defib.Prelude.{
  ℕ, ◌+◌, ◌≤◌, ◌≡◌, ◌≢◌, refl, ap, ◌∙◌, arith, Bool-cases, List, [], ◌∷◌, ◌++◌, append-nil, false,
  ◌&&◌, ◌||◌, ltb, ◌==◌, if◌then◌else◌, if_cases, some, inl, inr, length, take, drop,
}
use openipc_defib.Prelude.Result.{Result, Option-cases}
use openipc_defib.Struct.{be_value}
use openipc_defib.Text.{split}
use openipc_defib.Tftp.{
  Transfer, Server, find, put, remove, send, send_error, send_data_block, resolve_file, negotiated,
  no_options, default_blocksize, well_formed, first_part, start_transfer, handle_rrq, acknowledged,
  handle_ack, handle_error, dispatch, datagram_received,
}

-- The packets that were sent to `addr`, in order.
unfoldable pub sent_to : ℕ → List (ℕ × List ℕ) → List (List ℕ)
sent_to addr [] = []
sent_to addr ((a, packet) ∷ rest) =
    if a == addr then packet ∷ sent_to addr rest else sent_to addr rest

pub sent_to-append :
    (addr : ℕ) (xs ys : List (ℕ × List ℕ))
    → sent_to addr (xs ++ ys) ≡ sent_to addr xs ++ sent_to addr ys
unfolding sent_to
sent_to-append addr [] ys = refl
sent_to-append addr ((a, packet) ∷ xs) ys = elim (Bool-cases (a == addr)) [
  | inl same ↦ rw same (ap (λ (t : List (List ℕ)). packet ∷ t) (sent_to-append addr xs ys))
  | inr other ↦ rw other (sent_to-append addr xs ys)
]

pub find-put :
    (k a : ℕ) (t : Transfer) (m : List (ℕ × Transfer))
    → find k (put a t m) ≡ (if a == k then some t else find k m)
unfolding find put
find-put k a t [] = refl
find-put k a t ((b, u) ∷ m) = ground (arith, find-put k a t m)

find-remove_other : (k a : ℕ) (m : List (ℕ × Transfer)) → a ≢ k → find k (remove a m) ≡ find k m
unfolding find remove
find-remove_other k a [] ne = refl
find-remove_other k a ((b, u) ∷ m) ne = ground (arith, find-remove_other k a m ne)

-- For `addr` nothing is different in `s'`, and no completed transfer is forgotten.
pub record Untouched (addr : ℕ) (s s' : Server) : Type 0 where
  pub table : find addr s'.transfers ≡ find addr s.transfers
  pub packets : sent_to addr s'.outbox ≡ sent_to addr s.outbox
  pub link : s'.connected ≡ s.connected
  pub counted : s.stats.transfers_complete ≤ s'.stats.transfers_complete

pub Untouched-trans :
    (addr : ℕ) (s s' s'' : Server)
    → Untouched addr s s'
    → Untouched addr s' s''
    → Untouched addr s s''
Untouched-trans addr s s' s'' a b = record {
  table = b.table ∙ a.table;
  packets = b.packets ∙ a.packets;
  link = b.link ∙ a.link;
  counted = omega (arith, a.counted, b.counted);
}

module _ (addr a : ℕ) (ne : a ≢ addr) where
  other : (a == addr) ≡ false
  other = ground arith

  send-Untouched : (packet : List ℕ) (s : Server) → Untouched addr s (send a packet s)
  unfolding send sent_to
  send-Untouched packet s =
      if_cases (Untouched addr s) s.connected
        (λ on. record {
          table = refl;
          packets =
              sent_to-append addr s.outbox ((a, packet) ∷ [])
              ∙ rw other (append-nil (sent_to addr s.outbox));
          link = refl;
          counted = omega arith;
        })
        (λ off. record { table = refl; packets = refl; link = refl; counted = omega arith })

  -- A change of the table at `a`, and of counts.
  put-Untouched :
      (t : Transfer) (s : Server) → Untouched addr s (record s { transfers = put a t s.transfers })
  put-Untouched t s = record {
    table = find-put addr a t s.transfers ∙ rw other refl;
    packets = refl;
    link = refl;
    counted = omega arith;
  }

  send_error-Untouched :
      (code : ℕ) (message : List ℕ) (s : Server) → Untouched addr s (send_error a code message s)
  unfolding send_error
  send_error-Untouched code message s =
      let counted : Server = record s { stats = record s.stats { errors = s.stats.errors + 1 } } in
      Untouched-trans addr s counted _
        (record { table = refl; packets = refl; link = refl; counted = omega arith })
        (send-Untouched _ counted)

  send_data_block-Untouched :
      (t : Transfer) (s : Server) → Untouched addr s (send_data_block a t s).0
  unfolding send_data_block
  send_data_block-Untouched t s =
      if_cases (λ (r : Server × Result (Unit {0})). Untouched addr s r.0)
        (ltb (t.block_num + 1) 65536)
        (λ small. Untouched-trans addr s _ _ (put-Untouched _ s) (send-Untouched _ _))
        (λ large. put-Untouched _ s)

  start_transfer-Untouched :
      (content : List ℕ) (options : List (List ℕ × List ℕ)) (s : Server)
      → Untouched addr s (start_transfer a content options s).0
  unfolding start_transfer
  start_transfer-Untouched content options s =
      if_cases (λ (r : Server × Result (Unit {0})). Untouched addr s r.0)
        (no_options options || negotiated options == default_blocksize)
        (λ plain. Untouched-trans addr s _ _ (put-Untouched _ s) (send_data_block-Untouched _ _))
        (λ agreed. Untouched-trans addr s _ _ (put-Untouched _ s) (send-Untouched _ _))

  handle_rrq-Untouched : (body : List ℕ) (s : Server) → Untouched addr s (handle_rrq body a s).0
  unfolding handle_rrq
  handle_rrq-Untouched body s =
      let s' : Server = record s { stats = record s.stats { requests = s.stats.requests + 1 } } in
      let began : Untouched addr s s' = record {
        table = refl;
        packets = refl;
        link = refl;
        counted = omega arith;
      } in
      if_cases (λ (r : Server × Result (Unit {0})). Untouched addr s r.0)
        (well_formed (split 0 body))
        (λ good. elim (Option-cases (resolve_file (first_part (split 0 body)) s')) [
          | inl missing ↦
              rw (missing, handle_rrq)
                (Untouched-trans addr s s' _ began (send_error-Untouched 1 _ s'))
          | inr (content, there) ↦
              rw (there, handle_rrq)
                (Untouched-trans addr s s' _ began (start_transfer-Untouched content _ s'))
        ])
        (λ bad. Untouched-trans addr s s' _ began (send_error-Untouched 0 _ s'))

  acknowledged-Untouched : (t : Transfer) (s : Server) → Untouched addr s (acknowledged a t s).0
  unfolding acknowledged
  acknowledged-Untouched t s =
      if_cases (λ (r : Server × Result (Unit {0})). Untouched addr s r.0) t.complete
        (λ ended. record {
          table = find-remove_other addr a s.transfers ne;
          packets = refl;
          link = refl;
          counted = omega arith;
        })
        (λ going.
          let u : Transfer = record t { retries = 0 } in
          Untouched-trans addr s _ _
            (record {
              table = find-put addr a u s.transfers ∙ rw other refl;
              packets = refl;
              link = refl;
              counted = omega arith;
            })
            (send_data_block-Untouched u _))

  same : (s : Server) → Untouched addr s s
  same s = record { table = refl; packets = refl; link = refl; counted = omega arith }

  handle_ack-Untouched : (n : ℕ) (s : Server) → Untouched addr s (handle_ack n a s).0
  unfolding handle_ack
  handle_ack-Untouched n s = elim (Option-cases (find a s.transfers)) [
    | inl missing ↦ rw (missing, handle_ack) (same s)
    | inr (t, there) ↦
        rw (there, handle_ack)
          (if_cases (λ (r : Server × Result (Unit {0})). Untouched addr s r.0)
            (n == 0 && t.block_num == 0) (λ first. send_data_block-Untouched t s)
            (λ later.
              if_cases (λ (r : Server × Result (Unit {0})). Untouched addr s r.0) (n == t.block_num)
                (λ matches. acknowledged-Untouched t s) (λ stale. same s)))
  ]

  -- Whatever one peer sends, another peer's transfer stays as it was, and it is sent nothing.
  pub datagram_received-Untouched :
      (bytes : List ℕ) (s : Server) → Untouched addr s (datagram_received bytes a s).0
  unfolding datagram_received dispatch handle_error
  datagram_received-Untouched bytes s =
      let P = λ (r : Server × Result (Unit {0})). Untouched addr s r.0 in
      let opcode = be_value (take 2 bytes) in
      let body = drop 2 bytes in
      if_cases P (ltb (length bytes) 2) (λ short. same s)
        (λ whole.
          if_cases P (opcode == 1) (λ rrq. handle_rrq-Untouched body s)
            (λ not_rrq.
              if_cases P (opcode == 4)
                (λ ack.
                  if_cases P (ltb (length body) 2) (λ short. same s)
                    (λ long. handle_ack-Untouched (be_value (take 2 body)) s))
                (λ not_ack.
                  if_cases P (opcode == 5)
                    (λ failed. record {
                      table = find-remove_other addr a s.transfers ne;
                      packets = refl;
                      link = refl;
                      counted = omega arith;
                    })
                    (λ unknown. send_error-Untouched 4 _ s))))
