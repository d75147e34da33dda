-- ===== src/Uart/Send.antt =====
-- Waiting for the serial port, and what is sent.
use arm64os.Common.{
  ℕ, zero, suc, ◌+◌, ◌<◌, ◌≡◌, refl, arith, ap, sym, ◌∙◌, ◌==◌, ==_iff, Bool-cases, inl, inr,
  if◌then◌else◌, true, false, List, [], ◌∷◌, ◌++◌, append_assoc, append-nil, bit_and, ok, Returns,
}
use arm64os.Uart.{
  Uart, uart_fr_reg, uart_data_reg, uart_fr_txff, wait, uart_send, uart_send_string, putchar,
}

-- From every read on, a flag is clear within `fuel` reads.
abbrev pub IsReady : (fuel mask : ℕ) → (ℕ → ℕ → ℕ) → Type 0
IsReady fuel mask answers =
    (n : ℕ) → (j : ℕ) × (j < fuel) × (bit_and (answers (n + j) uart_fr_reg) mask ≡ 0)

wait_now :
    (fuel mask : ℕ) (s : Uart)
    → (bit_and (s.answers s.reads uart_fr_reg) mask == 0) ≡ true
    → wait (suc fuel) mask s ≡ ok (record s { reads = s.reads + 1 })
unfolding wait
wait_now fuel mask s h = rw h

wait_again :
    (fuel mask : ℕ) (s : Uart)
    → (bit_and (s.answers s.reads uart_fr_reg) mask == 0) ≡ false
    → wait (suc fuel) mask s ≡ wait fuel mask (record s { reads = s.reads + 1 })
unfolding wait
wait_again fuel mask s h = rw h

wait_within :
    (fuel j mask : ℕ) (s : Uart)
    → j < fuel
    → bit_and (s.answers (s.reads + j) uart_fr_reg) mask ≡ 0
    → (r : ℕ) × (wait fuel mask s ≡ ok (record s { reads = r }))
wait_within zero j mask s h clear = absurd (omega (arith, h))
wait_within (suc fuel) zero mask s h clear =
    let same : s.reads + 0 ≡ s.reads = omega arith in
    let now = rw same at clear in (s.reads + 1, wait_now fuel mask s (ground (arith, now)))
wait_within (suc fuel) (suc j) mask s h clear =
    elim (Bool-cases (bit_and (s.answers s.reads uart_fr_reg) mask == 0)) [
      | inl now ↦ (s.reads + 1, wait_now fuel mask s now)
      | inr later ↦
          let next : s.reads + 1 + j ≡ s.reads + suc j = omega arith in
          let (r, runs) =
            wait_within fuel j mask (record s { reads = s.reads + 1 }) (omega (arith, h))
              (ap (λ i. bit_and (s.answers i uart_fr_reg) mask) next ∙ clear) in
          (r, wait_again fuel mask s later ∙ runs)
    ]

pub wait_ends :
    (fuel mask : ℕ) (s : Uart)
    → IsReady fuel mask s.answers
    → (r : ℕ) × (wait fuel mask s ≡ ok (record s { reads = r }))
wait_ends fuel mask s ready = let (j, h, clear) = ready s.reads in wait_within fuel j mask s h clear

-- What was written to the data register, in order.
abbrev pub transmitted : List (ℕ × ℕ) → List ℕ
transmitted [] = []
transmitted ((a, v) ∷ ws) = transmitted ws ++ (if a == uart_data_reg then v ∷ [] else [])

uart_send_lem :
    (fuel c : ℕ) (s : Uart)
    → IsReady fuel uart_fr_txff s.answers
    → (r : ℕ) × (uart_send fuel c s
        ≡ ok (record s { reads = r; writes = (uart_data_reg, c) ∷ s.writes }))
unfolding uart_send
uart_send_lem fuel c s ready = let (r, runs) = wait_ends fuel uart_fr_txff s ready in (r, rw runs)

-- Where the serial port takes a character again within a number of reads, `uart_send_string` comes to its
-- end, and the port has got the characters of the text, in order, behind what it had got before.
pub uart_send_string-transmitted :
    (fuel : ℕ) (cs : List ℕ) (s : Uart)
    → IsReady fuel uart_fr_txff s.answers
    → Returns
        (uart_send_string fuel cs s)
        (λ out. (transmitted out.writes ≡ transmitted s.writes ++ cs) × (out.memory ≡ s.memory))
unfolding uart_send_string
uart_send_string-transmitted fuel [] s ready =
    (s, refl, (sym (append-nil (transmitted s.writes)), refl))
uart_send_string-transmitted fuel (c ∷ cs) s ready =
    let (r, runs) = uart_send_lem fuel c s ready in
    let (out, rest, (sent, kept)) =
      uart_send_string-transmitted fuel cs
        (record s { reads = r; writes = (uart_data_reg, c) ∷ s.writes }) ready in
    (out, rw (runs) rest, (sent ∙ append_assoc (transmitted s.writes) (c ∷ []) cs, kept))

-- `putchar` sends a carriage return ahead of a line feed, and any other character alone.
pub putchar-transmitted :
    (fuel c : ℕ) (s : Uart)
    → IsReady fuel uart_fr_txff s.answers
    → Returns (putchar fuel c s) (λ out.
      transmitted out.writes ≡ transmitted s.writes ++ (if c == 10 then 13 ∷ 10 ∷ [] else c ∷ []))
unfolding putchar
putchar-transmitted fuel c s ready =
    let (r, runs) = uart_send_lem fuel c s ready in
    let (r1, runs1) = uart_send_lem fuel 13 s ready in
    let s1 = record s { reads = r1; writes = (uart_data_reg, 13) ∷ s.writes } in
    let (r2, runs2) = uart_send_lem fuel c s1 ready in
    elim (Bool-cases (c == 10)) [
      | inl feed ↦
          rw (feed, runs1, runs2)
            (
              _,
              refl,
              append_assoc (transmitted s.writes) (13 ∷ []) (c ∷ [])
                  ∙ ap (λ x. transmitted s.writes ++ (13 ∷ x ∷ [])) ((==_iff c 10).0 feed),
            )
      | inr other ↦ rw (other, runs) (_, refl, refl)
    ]
