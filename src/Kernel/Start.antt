-- ===== src/Kernel/Start.antt =====
-- src/kernel.c: the table of handlers once the kernel has started.
use os_c.Prelude.{ℕ, ◌==◌, ◌≡◌, ◌≢◌, refl, ◌∙◌, false, arith}
use os_c.Printf.Outcome.{ok}
use os_c.Pic.{pic_enable_interrupts, irq_clear_mask, add_interrupt_handler}
use os_c.Exceptions.{ExceptionId, number}
use os_c.Exceptions.Table.{exception_handler, init_exception_handlers-table, number-bound}
use os_c.Kernel.{i_ok, timer, keyboard, exception, first_handlers, Kernel, start}

-- which handler there is for an interrupt
pub record Installed (k : Kernel) : Type 0 where
  pub exceptions :
      (e : ExceptionId) → k.interrupt_functions (number e) ≡ exception (exception_handler e)
  pub timer : k.interrupt_functions 0x20 ≡ timer
  pub keyboard : k.interrupt_functions 0x21 ≡ keyboard
  pub others :
      (i : ℕ)
      → ((e : ExceptionId) → i ≢ number e)
      → i ≢ 0x20
      → i ≢ 0x21
      → k.interrupt_functions i ≡ i_ok

-- The start of `kernel_main` returns, whatever the ports hand out and the video memory holds, and
-- leaves every exception with its handler, the vector 0x20 with that of the timer and 0x21 with
-- that of the keyboard; every other vector stops the processor.
pub start-Installed : (read video : ℕ → ℕ) → (k : Kernel) × (start read video ≡ ok k) × Installed k
unfolding start pic_enable_interrupts irq_clear_mask add_interrupt_handler
start-Installed read video =
    let (own, others) = init_exception_handlers-table exception first_handlers in
    (
      _,
      refl,
      record {
        exceptions = λ e.
            let p = number-bound e in
            let no_key : (number e == 0x21) ≡ false = ground (arith, p) in
            let no_tick : (number e == 0x20) ≡ false = ground (arith, p) in
            rw (no_key, no_tick) (own e);
        timer = refl;
        keyboard = refl;
        others = λ i p q r.
            let no_key : (i == 0x21) ≡ false = ground (arith, r) in
            let no_tick : (i == 0x20) ≡ false = ground (arith, q) in
            rw (no_key, no_tick) (others i p ∙ rw no_tick refl);
      },
    )
