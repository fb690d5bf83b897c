-- ===== src/Kernel/Tests.antt =====
-- src/kernel.c: the start on ports that hand out 0, a key, a tick and a page fault.
use os_c.Prelude.{ℕ, ◌≡◌, [], ◌∷◌, List}
use os_c.Terminal.{init_terminal}
use os_c.Printf.Outcome.{ok}
use os_c.Printf.Total.{Ends}
use os_c.Printf.Safe.{Kept}
use os_c.Kernel.{Kernel, start, Cause, serve_interrupts}
use os_c.Kernel.Start.{Installed, start-Installed}
use os_c.Kernel.Events.{screen_of, start-serve_interrupts}

abbrev zeros : ℕ → ℕ
zeros a = 0

abbrev cause : ℕ → ℕ → Cause
cause vector code = record { vector = vector; frame = zeros; code = code }

abbrev causes : List Cause
causes = cause 0x21 0x15 ∷ cause 0x20 0 ∷ cause 0x0e 0 ∷ []

start-Installed_example : (k : Kernel) × (start zeros zeros ≡ ok k) × Installed k
start-Installed_example = start-Installed zeros zeros

start-serve_interrupts_example :
    (k : Kernel) × (start zeros zeros ≡ ok k)
    × Ends (λ a. Kept (init_terminal zeros) (screen_of a)) (serve_interrupts causes k)
start-serve_interrupts_example = start-serve_interrupts zeros zeros causes
