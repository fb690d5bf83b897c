-- ===== src/Kernel.antt =====
-- src/kernel.c, `timer_print` and the calls of `kernel_main` up to the keyboard's, with the table of
-- handlers that src/arch/x86_64/boot64.s sets up and calls through.
mod Start
mod Sound
mod Events
mod Tests
use os_c.Prelude.{ℕ, ◌==◌, if◌then◌else◌, List, [], ◌∷◌, ◌++◌, false, codes}
use os_c.Terminal.{Terminal, init_terminal}
use os_c.Printf.{Caller, terminal_printf}
use os_c.Printf.Outcome.{Result, ok, halted, fault, out_of_fuel, ◌>>=◌}
use os_c.Exceptions.{
  HandlerFunction, Handled, returned, stopped, arguments, init_exception_handlers,
}
use os_c.Keyboard.{Keyboard, keyboard_interrupt}
use os_c.Pic.{pic_init, pic_enable_interrupts, add_interrupt_handler}

pub data Handler : Type 0 where
  i_ok i_ok_timer timer keyboard : Handler
  exception : HandlerFunction → Handler

-- `setup_interrupt_handlers`
abbrev pub first_handlers : ℕ → Handler
first_handlers vector = if vector == 0x20 then i_ok_timer else i_ok

pub record Kernel : Type 0 where
  pub keys : Keyboard
  pub interrupt_functions : ℕ → Handler
  pub port_writes : List (ℕ × ℕ)

unfoldable pub timer_print : Terminal → Result Handled
timer_print t = do t' ← terminal_printf (arguments []) (codes "T") t; ok (returned 0 t')

-- `kernel_main` up to the registration of the keyboard's handler; `read` is what a port hands out, and
-- `video` the video memory as it is found.
unfoldable pub start : (ℕ → ℕ) → (ℕ → ℕ) → Result Kernel
start read video = do
  let table = init_exception_handlers exception first_handlers
  enabled ← pic_enable_interrupts read
  ok record {
    keys = record { key_released = false; terminal = init_terminal video };
    interrupt_functions =
        add_interrupt_handler 0x21 keyboard (add_interrupt_handler 0x20 timer table);
    port_writes = pic_init read 0x20 0x28 ++ enabled;
  }

-- what an interrupt comes with: the words that the processor pushed, and the encoder's scan code
pub record Cause : Type 0 where
  pub vector : ℕ
  pub frame : ℕ → ℕ
  pub code : ℕ

-- The processor goes back to what was interrupted, or stops.
pub data After : Type 0 where
  goes_on stops : Kernel → After

abbrev pub shown : Kernel → Terminal → Kernel
shown k t = record k { keys = record k.keys { terminal = t } }

abbrev pub after : Kernel → Handled → After
after k (returned v t) = goes_on (shown k t)
after k (stopped t) = stops (shown k t)

-- the handler that an interrupt's shim calls
unfoldable pub call : Handler → Cause → Kernel → Result After
call i_ok c k = ok (stops k)
call i_ok_timer c k = ok (goes_on k)
call timer c k = do r ← timer_print k.keys.terminal; ok (after k r)
call keyboard c k = do
  keys ← keyboard_interrupt c.code k.keys
  ok (goes_on (record k { keys = keys }))
call (exception handler) c k = do r ← handler c.frame k.keys.terminal; ok (after k r)

unfoldable pub interrupt : Cause → Kernel → Result After
interrupt c k = call (k.interrupt_functions c.vector) c k

abbrev pub onward : (Kernel → Result After) → After → Result After
onward next (goes_on k) = next k
onward next (stops k) = ok (stops k)

-- interrupts, one after the other, until the processor is stopped
unfoldable pub serve_interrupts : List Cause → Kernel → Result After
serve_interrupts [] k = ok (goes_on k)
serve_interrupts (c ∷ cs) k = interrupt c k >>= onward (serve_interrupts cs)
