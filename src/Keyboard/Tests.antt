-- ===== src/Keyboard/Tests.antt =====
-- src/keyboard.c: two keys that overlap.
use os_c.Prelude.{◌≡◌, refl, false, List, [], ◌∷◌, arith}
use os_c.Terminal.Tests.{screen}
use os_c.Printf.Outcome.{ok}
use os_c.Keyboard.{print_key, interrupts, ascii_key, assign}
use os_c.Keyboard.Stream.{Event, press, release, stream, typed, InTable, interrupts-typed}

ascii_key-q : ascii_key 0x15 ≡ b'Q'
unfolding ascii_key assign
ascii_key-q = refl

abbrev two_keys : List Event
two_keys = press 0x15 ∷ press 0x1d ∷ release 0x15 ∷ press 0x1d ∷ release 0x1d ∷ []

two_keys-InTable : InTable two_keys
unfolding InTable
two_keys-InTable = (omega arith, (omega arith, (omega arith, (omega arith, (omega arith, tt)))))

interrupts-typed_example :
    interrupts (stream two_keys) (record { key_released = false; terminal = screen })
    ≡ ok (record { key_released = false; terminal = typed two_keys screen })
interrupts-typed_example = interrupts-typed two_keys screen two_keys-InTable

run_silent : print_key 0 screen ≡ screen
unfolding print_key
run_silent = refl
