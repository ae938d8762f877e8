-- ===== src/Tftp/Invariant.antt =====
-- What holds of the server between two datagrams.
use openipc_defib.Prelude.{
  ℕ, ◌+◌, ◌-◌, ◌*◌, ◌≤◌, ◌<◌, ◌≡◌, refl, ap, arith, min, List, [], ◌∷◌, true, false, ◌&&◌, ◌||◌,
  ltb, ◌==◌, Option, none, some, ◌⊎◌, inl, inr, Bool-cases, if_cases, length, length-take,
  length-drop, All, take, drop,
}
use openipc_defib.Prelude.Result.{Result, Option-cases}
use openipc_defib.Struct.{be_value}
use openipc_defib.Text.{split, int_or_zero}
use openipc_defib.Tftp.{
  Transfer, Server, find, put, remove, send, send_error, block_of, send_data_block, lookup_file,
  resolve_file, clamp_blocksize, negotiated, options_of, well_formed, first_part, blksize_name,
  default_blocksize, no_options, start_transfer, handle_rrq, acknowledged, handle_ack, handle_error,
  dispatch, datagram_received, serve,
}

-- The blocks up to `block_num` went out: the transfer is complete exactly when the last was short,
-- and no block lies past the content.
pub record IsTransfer (t : Transfer) : Type 0 where
  pub size_low : 8 ≤ t.blocksize
  pub size_high : t.blocksize ≤ 65464
  pub inside :
      t.complete ≡ false → t.block_num < 65536 → t.block_num * t.blocksize ≤ length t.content
  pub at_end : t.complete ≡ true → length t.content < t.block_num * t.blocksize
  pub no_further : t.complete ≡ true → (t.block_num - 1) * t.blocksize ≤ length t.content

pub record IsServer (s : Server) : Type 0 where
  pub each : All (λ (e : ℕ × Transfer). IsTransfer e.1) s.transfers
  pub done_counted : s.done ≡ true → s.done_count ≤ s.stats.transfers_complete
  pub waits :
      s.done ≡ false
      → (s.stats.transfers_complete < s.done_count) ⊎ (s.stats.transfers_complete ≡ 0)

abbrev Entries : List (ℕ × Transfer) → Type 0
Entries m = All (λ (e : ℕ × Transfer). IsTransfer e.1) m

Entries-put :
    (addr : ℕ) (t : Transfer) (m : List (ℕ × Transfer))
    → IsTransfer t
    → Entries m
    → Entries (put addr t m)
unfolding put
Entries-put addr t [] ht h = (ht, tt)
Entries-put addr t ((a, u) ∷ m) ht h = elim (Bool-cases (a == addr)) [
  | inl e ↦ rw e (ht, h.1)
  | inr e ↦ rw e (h.0, Entries-put addr t m ht h.1)
]

Entries-remove : (addr : ℕ) (m : List (ℕ × Transfer)) → Entries m → Entries (remove addr m)
unfolding remove
Entries-remove addr [] h = tt
Entries-remove addr ((a, u) ∷ m) h = elim (Bool-cases (a == addr)) [
  | inl e ↦ rw e h.1
  | inr e ↦ rw e (h.0, Entries-remove addr m h.1)
]

pub find-IsTransfer :
    (addr : ℕ) (m : List (ℕ × Transfer)) (t : Transfer)
    → Entries m
    → find addr m ≡ some t
    → IsTransfer t
unfolding find
find-IsTransfer addr [] t h e = cc
find-IsTransfer addr ((a, u) ∷ m) t h e = elim (Bool-cases (a == addr)) [
  | inl here ↦ let same : u ≡ t = ground arith in rw same at (h.0)
  | inr there ↦ find-IsTransfer addr m t h.1 (rw there at e)
]

pub length-block_of :
    (t : Transfer) (n : ℕ)
    → length (block_of t (n + 1)) ≡ min t.blocksize (length t.content - n * t.blocksize)
length-block_of t n = let e : n + 1 - 1 ≡ n = omega arith in rw (e, length-take, length-drop) refl

mul_next : (n b : ℕ) → (n + 1) * b ≡ n * b + b
mul_next n b = grind arith

-- A transfer that is not complete, with its next block sent, or refused.
sent-IsTransfer :
    (t : Transfer)
    → IsTransfer t
    → t.complete ≡ false
    → t.block_num + 1 < 65536
    → IsTransfer (record t {
      block_num = t.block_num + 1;
      complete = t.complete || ltb (length (block_of t (t.block_num + 1))) t.blocksize;
    })
sent-IsTransfer t h going small =
    let size = length-block_of t t.block_num in
    let next = mul_next t.block_num t.blocksize in
    let back : t.block_num + 1 - 1 ≡ t.block_num = omega arith in
    let fits = h.inside going (omega arith) in
    record {
      size_low = h.size_low;
      size_high = h.size_high;
      inside = λ c n. ground arith;
      at_end = λ c. ground arith;
      no_further = λ c. rw back fits;
    }

refused-IsTransfer :
    (t : Transfer)
    → IsTransfer t
    → t.complete ≡ false
    → 65536 ≤ t.block_num + 1
    → IsTransfer (record t { block_num = t.block_num + 1 })
refused-IsTransfer t h going large = record {
  size_low = h.size_low;
  size_high = h.size_high;
  inside = λ c n. absurd (omega arith);
  at_end = λ c. absurd (cc);
  no_further = λ c. absurd (cc);
}

-- Sending changes neither the table nor the counts that the invariant reads.
send-IsServer :
    (addr : ℕ) (packet : List ℕ) (s : Server) → IsServer s → IsServer (send addr packet s)
unfolding send
send-IsServer addr packet s h =
    if_cases IsServer s.connected
      (λ on. record { each = h.each; done_counted = h.done_counted; waits = h.waits }) (λ off. h)

send_error-IsServer :
    (addr code : ℕ) (message : List ℕ) (s : Server)
    → IsServer s
    → IsServer (send_error addr code message s)
unfolding send_error
send_error-IsServer addr code message s h =
    send-IsServer addr _ _
      (record { each = h.each; done_counted = h.done_counted; waits = h.waits })

-- A table in the place of the old one.
with_table :
    (s : Server) (m : List (ℕ × Transfer))
    → Entries m
    → IsServer s
    → IsServer (record s { transfers = m })
with_table s m hm h = record { each = hm; done_counted = h.done_counted; waits = h.waits }

send_data_block-IsServer :
    (addr : ℕ) (t : Transfer) (s : Server)
    → IsServer s
    → IsTransfer t
    → t.complete ≡ false
    → IsServer (send_data_block addr t s).0
unfolding send_data_block
send_data_block-IsServer addr t s h ht going = elim (Bool-cases (ltb (t.block_num + 1) 65536)) [
  | inl small ↦ rw small (
      send-IsServer addr _ _ (
        with_table s _
          (Entries-put addr _ s.transfers (sent-IsTransfer t ht going (ground arith)) h.each) h))
  | inr large ↦ rw large (
      with_table s _
        (Entries-put addr _ s.transfers (refused-IsTransfer t ht going (ground arith)) h.each) h)
]

clamp_bounds : (o : Option ℕ) → (8 ≤ clamp_blocksize o) × (clamp_blocksize o ≤ 65464)
clamp_bounds none = omega arith
clamp_bounds (some n) = omega arith

pub negotiated_bounds :
    (options : List (List ℕ × List ℕ)) → (8 ≤ negotiated options) × (negotiated options ≤ 65464)
unfolding negotiated
negotiated_bounds options = elim (Option-cases (lookup_file blksize_name options)) [
  | inl none_there ↦ rw (none_there, negotiated) (omega arith)
  | inr (value, there) ↦ rw (there, negotiated) (clamp_bounds (int_or_zero value))
]

start_transfer-IsServer :
    (addr : ℕ) (content : List ℕ) (options : List (List ℕ × List ℕ)) (s : Server)
    → IsServer s
    → IsServer (start_transfer addr content options s).0
unfolding start_transfer
start_transfer-IsServer addr content options s h =
    let t : Transfer = record {
      content = content;
      blocksize = negotiated options;
      block_num = 0;
      complete = false;
      retries = 0;
    } in
    let sizes = negotiated_bounds options in
    let fresh : IsTransfer t = record {
      size_low = sizes.0;
      size_high = sizes.1;
      inside = λ c n. ground arith;
      at_end = λ c. cc;
      no_further = λ c. cc;
    } in
    let began = with_table s _ (Entries-put addr t s.transfers fresh h.each) h in
    elim (Bool-cases (no_options options || negotiated options == default_blocksize)) [
      | inl plain ↦ rw plain (send_data_block-IsServer addr t _ began fresh refl)
      | inr agreed ↦ rw agreed (send-IsServer addr _ _ began)
    ]

handle_rrq-IsServer :
    (body : List ℕ) (addr : ℕ) (s : Server) → IsServer s → IsServer (handle_rrq body addr s).0
unfolding handle_rrq
handle_rrq-IsServer body addr s h =
    let s' = record s { stats = record s.stats { requests = s.stats.requests + 1 } } in
    let h' : IsServer s' = record {
      each = h.each;
      done_counted = h.done_counted;
      waits = h.waits;
    } in
    elim (Bool-cases (well_formed (split 0 body))) [
      | inr bad ↦ rw bad (send_error-IsServer addr 0 _ s' h')
      | inl good ↦ elim (Option-cases (resolve_file (first_part (split 0 body)) s')) [
        | inl none_there ↦ rw (good, none_there, handle_rrq) (send_error-IsServer addr 1 _ s' h')
        | inr (content, there) ↦
            rw (good, there, handle_rrq)
              (start_transfer-IsServer addr content (options_of (split 0 body)) s' h')
      ]
    ]

acknowledged-IsServer :
    (addr : ℕ) (t : Transfer) (s : Server)
    → IsServer s
    → IsTransfer t
    → IsServer (acknowledged addr t s).0
unfolding acknowledged
acknowledged-IsServer addr t s h ht =
    if_cases (λ (r : Server × Result (Unit {0})). IsServer r.0) t.complete
      (λ ended. record {
        each = Entries-remove addr s.transfers h.each;
        done_counted = λ d. ground (arith, h.done_counted);
        waits = λ d. ground arith;
      })
      (λ going.
        let t' : Transfer = record t { retries = 0 } in
        let ht' : IsTransfer t' = record {
          size_low = ht.size_low;
          size_high = ht.size_high;
          inside = ht.inside;
          at_end = ht.at_end;
          no_further = ht.no_further;
        } in
        send_data_block-IsServer addr t' _
          (record {
            each = Entries-put addr t' s.transfers ht' h.each;
            done_counted = h.done_counted;
            waits = h.waits;
          })
          ht' going)

-- Before its first block a transfer is not complete.
not_complete : (t : Transfer) → IsTransfer t → t.block_num ≡ 0 → t.complete ≡ false
not_complete t h e = elim (Bool-cases t.complete) [
  | inr going ↦ going
  | inl ended ↦
      let past = h.at_end ended in
      let none_sent = ap (λ (n : ℕ). n * t.blocksize) e in absurd (omega arith)
]

handle_ack-IsServer :
    (block_num addr : ℕ) (s : Server) → IsServer s → IsServer (handle_ack block_num addr s).0
unfolding handle_ack
handle_ack-IsServer block_num addr s h = elim (Option-cases (find addr s.transfers)) [
  | inl none_there ↦ rw (none_there, handle_ack) h
  | inr (t, there) ↦
      let ht = find-IsTransfer addr s.transfers t h.each there in
      elim (Bool-cases (block_num == 0 && t.block_num == 0)) [
        | inl first ↦
            rw (there, first, handle_ack)
              (send_data_block-IsServer addr t s h ht (not_complete t ht (ground arith)))
        | inr later ↦ elim (Bool-cases (block_num == t.block_num)) [
          | inl matches ↦
              rw (there, later, matches, handle_ack) (acknowledged-IsServer addr t s h ht)
          | inr stale ↦ rw (there, later, stale, handle_ack) h
        ]
      ]
]

handle_error-IsServer : (addr : ℕ) (s : Server) → IsServer s → IsServer (handle_error addr s)
unfolding handle_error
handle_error-IsServer addr s h = record {
  each = Entries-remove addr s.transfers h.each;
  done_counted = h.done_counted;
  waits = h.waits;
}

dispatch-IsServer :
    (opcode : ℕ) (body : List ℕ) (addr : ℕ) (s : Server)
    → IsServer s
    → IsServer (dispatch opcode body addr s).0
unfolding dispatch
dispatch-IsServer opcode body addr s h =
    let P = λ (r : Server × Result (Unit {0})). IsServer r.0 in
    if_cases P (opcode == 1) (λ rrq. handle_rrq-IsServer body addr s h)
      (λ other.
        if_cases P (opcode == 4)
          (λ ack.
            if_cases P (ltb (length body) 2) (λ short. h)
              (λ whole. handle_ack-IsServer (be_value (take 2 body)) addr s h))
          (λ other.
            if_cases P (opcode == 5) (λ failed. handle_error-IsServer addr s h)
              (λ unknown. send_error-IsServer addr 4 _ s h)))

pub datagram_received-IsServer :
    (bytes : List ℕ) (addr : ℕ) (s : Server)
    → IsServer s
    → IsServer (datagram_received bytes addr s).0
unfolding datagram_received
datagram_received-IsServer bytes addr s h =
    if_cases (λ (r : Server × Result (Unit {0})). IsServer r.0) (ltb (length bytes) 2) (λ short. h)
      (λ whole. dispatch-IsServer (be_value (take 2 bytes)) (drop 2 bytes) addr s h)

-- The invariant holds after any datagrams of any peers in any order, also behind one that made the
-- server raise: every transfer in the table has a block size from 8 to 65464, no block of it lies
-- past its content, it is complete only once its block number has passed the content, and the server is done only
-- if enough transfers were completed.
pub serve-IsServer :
    (datagrams : List (ℕ × List ℕ)) (s : Server) → IsServer s → IsServer (serve datagrams s)
unfolding serve
serve-IsServer [] s h = h
serve-IsServer ((addr, bytes) ∷ rest) s h =
    serve-IsServer rest (datagram_received bytes addr s).0
      (datagram_received-IsServer bytes addr s h)
