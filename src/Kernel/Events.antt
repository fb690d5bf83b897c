-- ===== src/Kernel/Events.antt =====
-- src/kernel.c: the interrupts of the timer, the keyboard and the exceptions, in any order.
use os_c.Prelude.{ℕ, ◌≡◌, refl, List, [], ◌∷◌, codes}
use os_c.Terminal.{Terminal, init_terminal}
use os_c.Terminal.Sheet.{Sheet}
use os_c.Terminal.Screen.{Shows}
use os_c.Terminal.Init.{init_terminal-Shows}
use os_c.Printf.Outcome.{Result, ok}
use os_c.Printf.Total.{Ends, returns, halts, faults, Ends-bind}
use os_c.Printf.Safe.{Kept, Kept-trans, same, terminal_printf-Kept}
use os_c.Pic.{pic_enable_interrupts, irq_clear_mask, add_interrupt_handler}
use os_c.Exceptions.{Handled, returned, stopped, arguments, registrations, init_exception_handlers}
use os_c.Exceptions.Outcome.{terminal_of}
use os_c.Kernel.{
  Handler, i_ok, i_ok_timer, timer, keyboard, exception, first_handlers, Kernel, start, timer_print,
  Cause, After, goes_on, stops, after, call, interrupt, onward, serve_interrupts,
}
use os_c.Kernel.Sound.{
  keyboard_interrupt-Kept, IsSound, add-IsSound, add_all-IsSound, registrations-IsSound,
  first_handlers-IsSound,
}

abbrev pub screen_of : After → Terminal
screen_of (goes_on k) = k.keys.terminal
screen_of (stops k) = k.keys.terminal

timer_print-Kept :
    {t : Terminal} {s : Sheet} → Shows t s → Ends (λ r. Kept t (terminal_of r)) (timer_print t)
unfolding timer_print
timer_print-Kept w =
    Ends-bind (terminal_printf-Kept (arguments []) (codes "T") w) (λ t p. returns p)

-- every handler leaves the cursor on the screen
AllSound : Kernel → Type 0
AllSound k = (i : ℕ) → IsSound (k.interrupt_functions i)

-- after the interrupt
Handles : Kernel → After → Type 0
Handles k (goes_on k') = Kept k.keys.terminal k'.keys.terminal × AllSound k'
Handles k (stops k') = Kept k.keys.terminal k'.keys.terminal

after-Handles :
    (k : Kernel) (r : Handled)
    → AllSound k
    → Kept k.keys.terminal (terminal_of r)
    → Handles k (after k r)
unfolding Handles AllSound
after-Handles k (returned v t) all kept = (kept, all)
after-Handles k (stopped t) all kept = kept

call-Handles :
    (h : Handler) (c : Cause) (k : Kernel) {s : Sheet}
    → IsSound h
    → AllSound k
    → Shows k.keys.terminal s
    → Ends (Handles k) (call h c k)
unfolding call Handles AllSound IsSound
call-Handles i_ok c k p all w = returns (same w)
call-Handles i_ok_timer c k p all w = returns (same w, all)
call-Handles timer c k p all w =
    Ends-bind (timer_print-Kept w) (λ r kept. returns (after-Handles k r all kept))
call-Handles keyboard c k p all w =
    Ends-bind (keyboard_interrupt-Kept c.code k.keys w) (λ keys kept. returns (kept, all))
call-Handles (exception handler) c k p all w =
    let (r, done, kept) = p c.frame k.keys.terminal _ w in
    rw done (returns (after-Handles k r all kept))

interrupt-Handles :
    (c : Cause) (k : Kernel) {s : Sheet}
    → AllSound k
    → Shows k.keys.terminal s
    → Ends (Handles k) (interrupt c k)
unfolding interrupt AllSound
interrupt-Handles c k all w = call-Handles (k.interrupt_functions c.vector) c k (all c.vector) all w

Kept-onward :
    {t u : Terminal} {m : Result After}
    → Kept t u
    → Ends (λ a. Kept u (screen_of a)) m
    → Ends (λ a. Kept t (screen_of a)) m
Kept-onward p (returns q) = returns (Kept-trans p q)
Kept-onward p halts = halts
Kept-onward p faults = faults

onward-Kept :
    (next : Kernel → Result After) (k : Kernel) (a : After)
    → ((k' : Kernel) (s : Sheet)
        → AllSound k'
        → Shows k'.keys.terminal s
        → Ends (λ b. Kept k'.keys.terminal (screen_of b)) (next k'))
    → Handles k a
    → Ends (λ b. Kept k.keys.terminal (screen_of b)) (onward next a)
unfolding Handles
onward-Kept next k (goes_on k') p ((s, kept), all) = Kept-onward (s, kept) (p k' s all kept.shows)
onward-Kept next k (stops k') p kept = returns kept

serve-Kept :
    (cs : List Cause) (k : Kernel) (s : Sheet)
    → AllSound k
    → Shows k.keys.terminal s
    → Ends (λ a. Kept k.keys.terminal (screen_of a)) (serve_interrupts cs k)
unfolding serve_interrupts
serve-Kept [] k s all w = returns (same w)
serve-Kept (c ∷ cs) k s all w =
    Ends-bind (interrupt-Handles c k all w)
      (λ a p. onward-Kept (serve_interrupts cs) k a (serve-Kept cs) p)

-- From the start of the kernel on, interrupts in any order, of the timer, of the keyboard with any
-- scan codes, and of exceptions with whatever the processor pushed, are served one after the other
-- until one stops the processor or has no defined result; until then the cursor stays on the
-- screen, the sizes and colours of the terminal are as `init_terminal` leaves them, and no memory
-- outside of the screen is written.
pub start-serve_interrupts :
    (read video : ℕ → ℕ) (cs : List Cause)
    → (k : Kernel) × (start read video ≡ ok k)
      × Ends (λ a. Kept (init_terminal video) (screen_of a)) (serve_interrupts cs k)
unfolding start pic_enable_interrupts irq_clear_mask init_exception_handlers AllSound IsSound
start-serve_interrupts read video cs =
    let all : (i : ℕ)
        → IsSound (
            add_interrupt_handler 0x21 keyboard
              (add_interrupt_handler 0x20 timer (init_exception_handlers exception first_handlers))
              i) =
      add-IsSound 0x21 keyboard _ tt (
        add-IsSound 0x20 timer _ tt (
          add_all-IsSound registrations first_handlers registrations-IsSound
            first_handlers-IsSound)) in
    (_, refl, serve-Kept cs _ _ all (init_terminal-Shows video).0)
