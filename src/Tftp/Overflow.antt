-- ===== src/Tftp/Overflow.antt =====
-- A file of more than 65535 blocks.
use openipc_defib.Prelude.{
  ℕ, ◌+◌, ◌<◌, ◌≡◌, refl, ◌∙◌, arith, false, ◌&&◌, ltb, ◌==◌, if_cases, some,
}
use openipc_defib.Prelude.Result.{Result, ok, err, struct_error}
use openipc_defib.Tftp.{
  Transfer, Server, find, send_data_block, acknowledged, handle_ack, datagram_received,
}
use openipc_defib.Tftp.Serving.{ack, found_here, ack-handle_ack}

-- The peer has a transfer whose next block has no number.
pub record IsStalled (addr : ℕ) (s : Server) : Type 0 where
  pub t : Transfer
  pub there : find addr s.transfers ≡ some t
  pub past : 65535 < t.block_num

refused :
    (addr : ℕ) (t : Transfer) (s : Server)
    → t.block_num ≡ 65535
    → ((send_data_block addr t s).1 ≡ err struct_error)
      × ((send_data_block addr t s).0.outbox ≡ s.outbox)
      × IsStalled addr (send_data_block addr t s).0
unfolding send_data_block
refused addr t s last =
    let over : ltb (t.block_num + 1) 65536 ≡ false = ground arith in
    rw over
      (refl, refl, record { t = _; there = found_here addr _ s.transfers; past = omega arith })

ignored :
    (addr n : ℕ) (s : Server)
    → IsStalled addr s
    → n < 65536
    → datagram_received (ack n) addr s ≡ (s, ok tt)
unfolding handle_ack
ignored addr n s v small =
    let P = λ (r : Server × Result (Unit {0})). r ≡ (s, ok tt) in
    let past = v.past in
    ack-handle_ack addr n s small
    ∙ rw (v.there, handle_ack)
        (if_cases P (n == 0 && v.t.block_num == 0) (λ first. absurd (ground arith))
          (λ later.
            if_cases P (n == v.t.block_num) (λ matches. absurd (ground arith)) (λ stale. refl)))

-- `struct.error`, nothing sent, and every later ACK of the peer is ignored.
pub record Stops (addr : ℕ) (s : Server) (r : Server × Result (Unit {0})) : Type 0 where
  pub raised : r.1 ≡ err struct_error
  pub silent : r.0.outbox ≡ s.outbox
  pub stalled : IsStalled addr r.0
  pub deaf : (n : ℕ) → n < 65536 → datagram_received (ack n) addr r.0 ≡ (r.0, ok tt)

-- The ACK of block 65535 of a transfer that is not complete raises `struct.error`, sends nothing,
-- and from then on any ACK of the peer is ignored: the rest of the file is never sent.
pub ack-IsStalled :
    (addr : ℕ) (t : Transfer) (s : Server)
    → find addr s.transfers ≡ some t
    → t.block_num ≡ 65535
    → t.complete ≡ false
    → Stops addr s (datagram_received (ack 65535) addr s)
unfolding handle_ack acknowledged
ack-IsStalled addr t s there last going =
    let P = λ (r : Server × Result (Unit {0})). Stops addr s r in
    rw (ack-handle_ack addr 65535 s (omega arith), there, handle_ack)
      (if_cases P (65535 == t.block_num)
        (λ matches.
          if_cases P t.complete (λ ended. absurd (cc))
            (λ more.
              let r = refused addr (record t { retries = 0 }) _ last in
              record {
                raised = r.0;
                silent = r.1;
                stalled = r.2;
                deaf = λ n small. ignored addr n _ r.2 small;
              }))
        (λ stale. absurd (ground arith)))
