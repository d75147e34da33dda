-- ===== src/Tests/Devices.antt =====
-- Tests of the serial port, and of the timer on a controller that has mapped interrupt 30.
use arm64os.Common.{ok, ◌≡◌, refl, arith, some, [], ◌∷◌, ◌++◌, Returns, ◌==◌, if◌then◌else◌}
use arm64os.Common.Int.{pos}
use arm64os.Irq.{IrqState, gic_handle_irq}
use arm64os.Tests.Interrupts.{with_30, calm}
use arm64os.Uart.{Uart, uart_fr_reg, uart_send_string, uart_recv_string}
use arm64os.Uart.Send.{IsReady, transmitted, uart_send_string-transmitted}
use arm64os.Uart.Receive.{IsLine, uart_recv_string-IsLine}
use arm64os.Timer.{TimerImage, timer_init, run_timer, generic_timer_irq}
use arm64os.Timer.Interrupt.{IsTick, irq_handler-IsTick}
use arm64os.Irq.Gic.{irq_handler, handle_irq}
use arm64os.Timer.Tick.{IsStarted, after_tick, timer_init-IsStarted}

-- A port that is always ready, and on which `A` and then a carriage return arrive.
abbrev port : Uart
port = record {
  answers = λ n a. if a == uart_fr_reg then 0 else if n == 1 then 65 else 13;
  reads = 0;
  writes = [];
  memory = λ _. 7;
}

sends : IsReady 1 32 port.answers
sends n = (0, omega arith, refl)

receives : IsReady 1 16 port.answers
receives n = (0, omega arith, refl)

uart_send_string-transmitted_example :
    Returns
      (uart_send_string 1 (72 ∷ 105 ∷ []) port)
      (λ out. (transmitted out.writes ≡ [] ++ (72 ∷ 105 ∷ [])) × (out.memory ≡ port.memory))
uart_send_string-transmitted_example = uart_send_string-transmitted 1 (72 ∷ 105 ∷ []) port sends

uart_recv_string-IsLine_example :
    Returns
      (uart_recv_string 1 100 (pos 8) port)
      (λ out. IsLine 100 8 port.memory out.0 out.1.memory)
uart_recv_string-IsLine_example = uart_recv_string-IsLine 1 100 8 port receives (omega arith)

abbrev timer_image : TimerImage
timer_image = record { handler = 5; core_timer = 6 }

-- The controller with the handler of the timer.
abbrev with_timer : IrqState
with_timer = record with_30 {
  arch_irq_handler = some gic_handle_irq;
  irq_desc = λ i. record (with_30.irq_desc i) { handler = 5 };
  timer = record { arch_timer_rate = 216000; cntp_ctl_el0 = 1; cntp_tval_el0 = 0 };
}

timer_init-IsStarted_example :
    Returns
      (timer_init timer_image 54000000 with_30)
      (λ out. IsStarted timer_image 54000000 with_30 out.1)
    × (handle_irq (run_timer timer_image calm) 30 with_timer ≡ ok (after_tick with_timer))
    × ((after_tick with_timer).timer.cntp_tval_el0 ≡ 216000)
timer_init-IsStarted_example =
    timer_init-IsStarted timer_image calm (omega arith) 54000000 with_30 with_timer refl refl refl
      refl

irq_handler-IsTick_example :
    Returns
      (irq_handler (run_timer timer_image calm) generic_timer_irq with_timer)
      (IsTick 3 with_timer)
irq_handler-IsTick_example =
    irq_handler-IsTick timer_image calm 3 with_timer (omega arith) refl refl refl refl
