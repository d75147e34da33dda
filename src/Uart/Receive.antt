-- ===== src/Uart/Receive.antt =====
-- What `uart_recv_string` leaves in its buffer.
use arm64os.Common.{
  ℕ, zero, suc, ◌+◌, ◌-◌, ◌≤◌, ◌<◌, ◌≡◌, ◌⊎◌, refl, arith, ap, ◌∙◌, ◌==◌, Bool-cases, inl, inr,
  true, false, ok, Returns, update,
}
use arm64os.Common.Int.{pos}
use arm64os.Uart.{Uart, uart_fr_rxfe, uart_recv, recv_loop, uart_recv_string, is_line_end}
use arm64os.Uart.Send.{IsReady, wait_ends}

uart_recv_lem :
    (fuel : ℕ) (s : Uart)
    → IsReady fuel uart_fr_rxfe s.answers
    → (c : ℕ) × (r : ℕ) × (uart_recv fuel s ≡ ok (c, record s { reads = r }))
unfolding uart_recv
uart_recv_lem fuel s ready =
    let (r, runs) = wait_ends fuel uart_fr_rxfe s ready in rw runs (_, _, refl)

-- The memory `m'` after characters were put at `index` up to `stop`, of at most `left`.
record Received (buf left index stop : ℕ) (m m' : ℕ → ℕ) : Type 0 where
  from : index ≤ stop
  to : stop ≤ index + left
  outside : (a : ℕ) → (a < buf + index) ⊎ (buf + index + left ≤ a) → m' a ≡ m a
  no_end : (k : ℕ) → index ≤ k → k + 1 < stop → is_line_end (m' (buf + k)) ≡ false
  at_end : stop < index + left → (index < stop) × (is_line_end (m' (buf + (stop - 1))) ≡ true)

update_same : (m : ℕ → ℕ) (b a c : ℕ) → a ≡ b → update m b c a ≡ c
update_same m b a c e = ground (arith, e)

-- The memory `m'` after a line was put into a buffer, with its 0 at `n`.
pub record IsLine (buf len : ℕ) (m : ℕ → ℕ) (n : ℕ) (m' : ℕ → ℕ) : Type 0 where
  pub inside : n < len
  pub terminated : m' (buf + n) ≡ 0
  pub no_end : (k : ℕ) → k + 1 < n → is_line_end (m' (buf + k)) ≡ false
  pub at_end : n + 1 < len → (0 < n) × (is_line_end (m' (buf + (n - 1))) ≡ true)
  pub outside : (a : ℕ) → (a < buf) ⊎ (buf + len ≤ a) → m' a ≡ m a

update_other : (m : ℕ → ℕ) (b a c : ℕ) → (a == b) ≡ false → update m b c a ≡ m a
update_other m b a c e = rw e

end_IsLine :
    (buf len n stop : ℕ) (m m' : ℕ → ℕ)
    → Received buf len 0 stop m m'
    → n ≤ stop
    → n < len
    → (n + 1 < len → (0 < n) × (is_line_end (m' (buf + (n - 1))) ≡ true))
    → IsLine buf len m n (update m' (buf + n) 0)
end_IsLine buf len n stop m m' got le lt ends = record {
  inside = lt;
  terminated = update_same m' (buf + n) (buf + n) 0 refl;
  no_end = λ k less.
      ap is_line_end (update_other m' (buf + n) (buf + k) 0 (ground (arith, less)))
      ∙ got.no_end k (omega arith) (omega (arith, less, le));
  at_end = λ less.
      let (some_char, is_end) = ends less in
      (
        some_char,
        ap is_line_end (update_other m' (buf + n) (buf + (n - 1)) 0 (ground (arith, some_char)))
            ∙ is_end,
      );
  outside = λ a out.
      update_other m' (buf + n) a 0 (ground (arith, out, lt)) ∙ got.outside a (ground (arith, out));
}

module _ (fuel buf : ℕ) where
  loop_stop :
      (left index c r : ℕ) (s : Uart)
      → uart_recv fuel s ≡ ok (c, record s { reads = r })
      → is_line_end c ≡ true
      → recv_loop fuel buf (suc left) index s
        ≡ ok (index + 1, record s { reads = r; memory = update s.memory (buf + index) c })
  unfolding recv_loop
  loop_stop left index c r s runs h = rw (runs, h)

  loop_more :
      (left index c r : ℕ) (s : Uart)
      → uart_recv fuel s ≡ ok (c, record s { reads = r })
      → is_line_end c ≡ false
      → recv_loop fuel buf (suc left) index s
        ≡ recv_loop fuel buf left
            (index + 1)
            (record s { reads = r; memory = update s.memory (buf + index) c })
  unfolding recv_loop
  loop_more left index c r s runs h = rw (runs, h)

  loop_end : (index : ℕ) (s : Uart) → recv_loop fuel buf zero index s ≡ ok (index, s)
  unfolding recv_loop
  loop_end index s = refl

  stop_Received :
      (left index c : ℕ) (m : ℕ → ℕ)
      → is_line_end c ≡ true
      → Received buf (suc left) index (index + 1) m (update m (buf + index) c)
  stop_Received left index c m h = record {
    from = omega arith;
    to = omega arith;
    outside = λ a out. ground (arith, out);
    no_end = λ k from to. absurd (omega (arith, from, to));
    at_end = λ less. (
      omega arith,
      ap is_line_end (update_same m (buf + index) (buf + (index + 1 - 1)) c (omega arith)) ∙ h,
    );
  }

  more_Received :
      (left index stop c : ℕ) (m m' : ℕ → ℕ)
      → is_line_end c ≡ false
      → Received buf left (index + 1) stop (update m (buf + index) c) m'
      → Received buf (suc left) index stop m m'
  more_Received left index stop c m m' h r = record {
    from = omega (arith, r.from);
    to = omega (arith, r.to);
    outside = λ a out. r.outside a (ground (arith, out)) ∙ ground (arith, out);
    no_end = λ k from to. elim (Bool-cases (k == index)) [
      | inl same ↦
          let here : buf + k ≡ buf + index = ground (arith, same) in
          ap is_line_end (
            r.outside (buf + k) (inl (omega (arith, here)))
            ∙ update_same m (buf + index) (buf + k) c here)
          ∙ h
      | inr later ↦ r.no_end k (ground (arith, later, from)) to
    ];
    at_end =
        λ less. let (first, ends) = r.at_end (omega (arith, less)) in (omega (arith, first), ends);
  }

  recv_loop-Received :
      (left index : ℕ) (s : Uart)
      → IsReady fuel uart_fr_rxfe s.answers
      → Returns
          (recv_loop fuel buf left index s)
          (λ out. Received buf left index out.0 s.memory out.1.memory)
  recv_loop-Received zero index s ready = (
    (index, s),
    loop_end index s,
    record {
      from = omega arith;
      to = omega arith;
      outside = λ a out. refl;
      no_end = λ k from to. absurd (omega (arith, from, to));
      at_end = λ less. absurd (omega (arith, less));
    },
  )
  recv_loop-Received (suc left) index s ready =
      let (c, r, runs) = uart_recv_lem fuel s ready in
      let s1 = record s { reads = r; memory = update s.memory (buf + index) c } in
      elim (Bool-cases (is_line_end c)) [
        | inl stop ↦ (
          (index + 1, s1),
          loop_stop left index c r s runs stop,
          stop_Received left index c s.memory stop,
        )
        | inr more ↦
            let ((i, s2), rest, got) = recv_loop-Received left (index + 1) s1 ready in
            (
              (i, s2),
              loop_more left index c r s runs more ∙ rest,
              more_Received left index i c s.memory s2.memory more got,
            )
      ]

-- Where the serial port gives a character within a number of reads, `uart_recv_string` comes to its end
-- for a buffer of at least one byte. It returns an index in the buffer, at which it has put the 0; no
-- character before the last one ahead of it is a line end, and unless the buffer is full that last one is
-- one; nothing outside of the buffer is changed.
pub uart_recv_string-IsLine :
    (fuel buf len : ℕ) (s : Uart)
    → IsReady fuel uart_fr_rxfe s.answers
    → 1 ≤ len
    → Returns
        (uart_recv_string fuel buf (pos len) s)
        (λ out. IsLine buf len s.memory out.0 out.1.memory)
unfolding uart_recv_string
uart_recv_string-IsLine fuel buf len s ready room =
    let ((i, s1), runs, got) = recv_loop-Received fuel buf len 0 s ready in
    elim (Bool-cases (i == len)) [
      | inl full ↦
          let some_room : (len == 0) ≡ false = ground (arith, room) in
          rw (runs, full, some_room)
            (
              _,
              refl,
              end_IsLine buf len (len - 1) i s.memory s1.memory got (ground (arith, full, room))
                  (omega (arith, room)) (λ less. absurd (omega (arith, less, room))),
            )
      | inr free ↦
          rw (runs, free)
            (
              _,
              refl,
              end_IsLine buf len i i s.memory s1.memory got (omega arith)
                  (ground (arith, free, got.to)) (λ less. got.at_end (omega (arith, less))),
            )
    ]
