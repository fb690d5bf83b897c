-- ===== src/Kernel/Sound.antt =====
-- src/kernel.c: the handlers that the kernel starts with leave the cursor on the screen.
use os_c.Prelude.{map, sym, ℕ, ◌==◌, ◌≡◌, refl, Bool-cases, ltb, All, List, [], ◌∷◌, inl, inr, u16}
use mathlib.Core.Path.{subst}
use os_c.Terminal.{Terminal}
use os_c.Terminal.Sheet.{Sheet}
use os_c.Terminal.Screen.{Shows}
use os_c.Terminal.Text.{terminal_print_char-Prints}
use os_c.Printf.Outcome.{ok}
use os_c.Printf.Total.{Ends, returns, faults, Ends-if}
use os_c.Printf.Safe.{Kept, same}
use os_c.Keyboard.{
  Keyboard, keyboard_interrupt, print_key, ascii_key, ascii_key_size, key_relased_code,
}
use os_c.Pic.{add_interrupt_handler}
use os_c.Exceptions.{ExceptionId, number, HandlerFunction, Handled, registrations, add_all}
use os_c.Exceptions.Table.{exception_handler}
use os_c.Exceptions.Outcome.{terminal_of, exception_handler-Kept}
use os_c.Kernel.{Handler, exception, first_handlers}

print_key-Kept : (ascii : ℕ) {t : Terminal} {s : Sheet} → Shows t s → Kept t (print_key ascii t)
unfolding print_key
print_key-Kept ascii w = elim (Bool-cases (ascii == 0)) [
  | inl none ↦ rw none (same w)
  | inr some ↦ rw some (_, terminal_print_char-Prints ascii w)
]

pub keyboard_interrupt-Kept :
    (code : ℕ) (k : Keyboard) {s : Sheet}
    → Shows k.terminal s
    → Ends (λ k'. Kept k.terminal k'.terminal) (keyboard_interrupt code k)
unfolding keyboard_interrupt
keyboard_interrupt-Kept code k w = Ends-if (code == key_relased_code) (returns (same w)) (
    Ends-if k.key_released (returns (same w))
      (Ends-if (ltb code ascii_key_size) (returns (print_key-Kept (ascii_key code) w)) faults))

-- a handler that leaves the cursor on the screen
unfoldable pub IsSound : Handler → Type 0
IsSound (exception handler) =
    (frame : ℕ → ℕ) (t : Terminal) (s : Sheet)
    → Shows t s
    → (r : Handled) × (handler frame t ≡ ok r) × Kept t (terminal_of r)
IsSound _ = Unit

pub add-IsSound :
    (n : ℕ) (handler : Handler) (table : ℕ → Handler)
    → IsSound handler
    → ((i : ℕ) → IsSound (table i))
    → (i : ℕ) → IsSound (add_interrupt_handler n handler table i)
unfolding add_interrupt_handler
add-IsSound n handler table p all i = elim (Bool-cases (i == u16 n)) [
  | inl here ↦ rw here p
  | inr other ↦ rw other (all i)
]

pub add_all-IsSound :
    (rs : List (ExceptionId × HandlerFunction)) (table : ℕ → Handler)
    → All (λ (r : ExceptionId × HandlerFunction). IsSound (exception r.1)) rs
    → ((i : ℕ) → IsSound (table i))
    → (i : ℕ) → IsSound (add_all exception rs table i)
unfolding add_all
add_all-IsSound [] table p all = all
add_all-IsSound ((e, handler) ∷ rs) table (p, ps) all =
    add_all-IsSound rs _ ps (add-IsSound (number e) (exception handler) table p all)

handler-IsSound : (e : ExceptionId) → IsSound (exception (exception_handler e))
unfolding IsSound
handler-IsSound e = λ frame t s w. exception_handler-Kept e frame w

handlers-IsSound :
    (es : List ExceptionId)
    → All
        (λ (r : ExceptionId × HandlerFunction). IsSound (exception r.1))
        (map (λ e. (e, exception_handler e)) es)
handlers-IsSound [] = tt
handlers-IsSound (e ∷ es) = (handler-IsSound e, handlers-IsSound es)

pub registrations-IsSound :
    All (λ (r : ExceptionId × HandlerFunction). IsSound (exception r.1)) registrations
registrations-IsSound =
    let same : registrations ≡ map (λ e. (e, exception_handler e)) (map (λ r. r.0) registrations) =
      refl in
    subst (All (λ (r : ExceptionId × HandlerFunction). IsSound (exception r.1))) (sym same)
      (handlers-IsSound (map (λ r. r.0) registrations))

pub first_handlers-IsSound : (i : ℕ) → IsSound (first_handlers i)
unfolding IsSound
first_handlers-IsSound i = elim (Bool-cases (i == 0x20)) [
  | inl tick ↦ rw tick tt
  | inr other ↦ rw other tt
]
