-- ===== src/Keyboard/Stream.antt =====
-- src/keyboard.c: what a stream of scan codes prints.
use os_c.Prelude.{ℕ, ◌<◌, ◌≡◌, refl, true, false, ltb, ◌==◌, List, [], ◌∷◌, ◌++◌, arith}
use os_c.Terminal.{Terminal}
use os_c.Printf.Outcome.{ok}
use os_c.Keyboard.{
  ascii_key, ascii_key_size, key_relased_code, print_key, keyboard_interrupt, interrupts,
}

-- What happens to a key: it goes down, once or again while it is held, or up.
pub data Event : Type 0 where
  press release : ℕ → Event

-- the scan codes that the keyboard sends
abbrev pub event_codes : Event → List ℕ
event_codes (press code) = code ∷ []
event_codes (release code) = key_relased_code ∷ code ∷ []

pub stream : List Event → List ℕ
stream [] = []
stream (e ∷ events) = event_codes e ++ stream events

-- The key is one of the table; so far no code of the keyboard's second set of keys.
abbrev pub event_key : Event → ℕ
event_key (press code) = code
event_key (release code) = code

unfoldable pub InTable : List Event → Type 0
InTable [] = Unit {0}
InTable (e ∷ events) = (event_key e < ascii_key_size) × InTable events

-- what the presses print
pub typed : List Event → Terminal → Terminal
typed [] t = t
typed (press code ∷ events) t = typed events (print_key (ascii_key code) t)
typed (release code ∷ events) t = typed events t

-- Whatever keys of the table go down and up, in any order, the interrupts for the scan codes that
-- are sent print the character of every press once and nothing for a release, and end outside of a
-- release.
pub interrupts-typed :
    (events : List Event) (t : Terminal)
    → InTable events
    → interrupts (stream events) (record { key_released = false; terminal = t })
      ≡ ok (record { key_released = false; terminal = typed events t })
unfolding interrupts keyboard_interrupt stream typed InTable
interrupts-typed [] t p = refl
interrupts-typed (press code ∷ events) t (p, ps) =
    let make : (code == key_relased_code) ≡ false = ground arith in
    let inside : ltb code ascii_key_size ≡ true = ground arith in
    rw (make, inside) (interrupts-typed events (print_key (ascii_key code) t) ps)
interrupts-typed (release code ∷ events) t (p, ps) =
    let make : (code == key_relased_code) ≡ false = ground arith in
    rw make (interrupts-typed events t ps)
