-- ===== src/Uart.antt =====
-- arch/arm64/mach-rpi/pl_uart.c: the serial port, with the registers of mach/pl_uart.h and mach/gpio.h.
pub mod Send
pub mod Receive
use arm64os.Common.{
  ℕ, zero, suc, ◌+◌, ◌-◌, ◌*◌, ◌^◌, Bool, ◌||◌, ◌==◌, if◌then◌else◌, List, [], ◌∷◌, update, bit_and,
  bit_or, Result, ok, fault, out_of_fuel, ◌>>=◌,
}
use arm64os.Common.Bits.{and_not}
use arm64os.Mmu.{pbase}
use arm64os.Common.Int.{ℤ, pos, negsuc}

abbrev pub uart_base : ℕ
uart_base = pbase + 0x00201000

abbrev pub uart_data_reg : ℕ
uart_data_reg = uart_base

abbrev pub uart_fr_reg : ℕ
uart_fr_reg = uart_base + 0x18

abbrev pub uart_ibrd_reg : ℕ
uart_ibrd_reg = uart_base + 0x24

abbrev pub uart_fbrd_reg : ℕ
uart_fbrd_reg = uart_base + 0x28

abbrev pub uart_lcrh_reg : ℕ
uart_lcrh_reg = uart_base + 0x2C

abbrev pub uart_cr_reg : ℕ
uart_cr_reg = uart_base + 0x30

abbrev pub uart_imsc_reg : ℕ
uart_imsc_reg = uart_base + 0x38

abbrev pub uart_icr_reg : ℕ
uart_icr_reg = uart_base + 0x44

abbrev pub uart_fr_rxfe : ℕ
uart_fr_rxfe = 2 ^ 4

abbrev pub uart_fr_txff : ℕ
uart_fr_txff = 2 ^ 5

abbrev pub gpfsel1 : ℕ
gpfsel1 = pbase + 0x00200004

abbrev pub gppud : ℕ
gppud = pbase + 0x00200094

abbrev pub gppudclk0 : ℕ
gppudclk0 = pbase + 0x00200098

-- `answers n a` is what the device gives to the read of the register `a` that is number `n` of all
-- reads. `writes` are an address and a value each, the latest first. `memory` is that of the buffers.
pub record Uart : Type 0 where
  pub answers : ℕ → ℕ → ℕ
  pub reads : ℕ
  pub writes : List (ℕ × ℕ)
  pub memory : ℕ → ℕ

abbrev pub writel : (value address : ℕ) → Uart → Uart
writel value address s = record s { writes = (address, value) ∷ s.writes }

abbrev pub readl : (address : ℕ) → Uart → ℕ × Uart
readl address s = (s.answers s.reads address, record s { reads = s.reads + 1 })

-- The delays between the writes are left out.
unfoldable pub uart_init : Uart → Uart
uart_init s =
    let (selector, s1) = readl gpfsel1 s in
    let selector1 = bit_or (and_not selector (7 * 2 ^ 12)) (4 * 2 ^ 12) in
    let selector2 = bit_or (and_not selector1 (7 * 2 ^ 15)) (4 * 2 ^ 15) in
    let s2 = writel selector2 gpfsel1 s1 in
    let s3 = writel 0 gppudclk0 (writel (2 ^ 14 + 2 ^ 15) gppudclk0 (writel 0 gppud s2)) in
    let s4 = writel 0x7FF uart_icr_reg (writel 0 uart_cr_reg s3) in
    let s5 = writel 3 uart_fbrd_reg (writel 26 uart_ibrd_reg s4) in
    let s6 = writel 0 uart_imsc_reg (writel (bit_or (2 ^ 4) (3 * 2 ^ 5)) uart_lcrh_reg s5) in
    writel (bit_or (bit_or 1 (2 ^ 8)) (2 ^ 9)) uart_cr_reg s6

-- `while (readl(UART_FR_REG) & mask);` on fuel.
unfoldable pub wait : ℕ → (mask : ℕ) → Uart → Result Uart
wait zero mask s = out_of_fuel
wait (suc fuel) mask s =
    let (flags, s1) = readl uart_fr_reg s in
    let rest = wait fuel mask s1 in if bit_and flags mask == 0 then ok s1 else rest

unfoldable pub uart_recv : ℕ → Uart → Result (ℕ × Uart)
uart_recv fuel s = do
  s1 ← wait fuel uart_fr_rxfe s
  (let (c, s2) = readl uart_data_reg s1 in ok (bit_and c 0xFF, s2))

unfoldable pub uart_send : ℕ → (c : ℕ) → Uart → Result Uart
uart_send fuel c s = do s1 ← wait fuel uart_fr_txff s; ok (writel c uart_data_reg s1)

-- The characters of a text before its 0, in order.
unfoldable pub uart_send_string : ℕ → List ℕ → Uart → Result Uart
uart_send_string fuel [] s = ok s
uart_send_string fuel (c ∷ cs) s = do s1 ← uart_send fuel c s; uart_send_string fuel cs s1

unfoldable pub putchar : ℕ → (c : ℕ) → Uart → Result Uart
putchar fuel c s =
    if c == 10 then (do s1 ← uart_send fuel 13 s; uart_send fuel c s1) else uart_send fuel c s

abbrev pub is_line_end : ℕ → Bool
is_line_end c = c == 13 || c == 10

-- The loop of `uart_recv_string`, with `left` characters to go: the index behind the last one.
unfoldable pub recv_loop : ℕ → (buf left index : ℕ) → Uart → Result (ℕ × Uart)
recv_loop fuel buf zero index s = ok (index, s)
recv_loop fuel buf (suc left) index s = do
  (c, s1) ← uart_recv fuel s
  (let s2 = record s1 { memory = update s1.memory (buf + index) c } in
      if is_line_end c then ok (index + 1, s2) else recv_loop fuel buf left (index + 1) s2)

-- A character ahead of the buffer is a fault.
unfoldable pub uart_recv_string : ℕ → (buf : ℕ) → (len : ℤ) → Uart → Result (ℕ × Uart)
uart_recv_string fuel buf (negsuc n) s = ok (0, record s { memory = update s.memory buf 0 })
uart_recv_string fuel buf (pos len) s = do
  (index, s1) ← recv_loop fuel buf len 0 s
  (if index == len
      then (if len == 0
          then fault
          else ok (len - 1, record s1 { memory = update s1.memory (buf + (len - 1)) 0 }))
      else ok (index, record s1 { memory = update s1.memory (buf + index) 0 }))
