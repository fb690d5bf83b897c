-- ===== src/FrameAllocator/Message.antt =====
-- src/frame_allocator.c, `allocate_frame` with its call of `terminal_printf`.
use os_c.Prelude.{ℕ, ◌≡◌, ◌≢◌, refl, ◌⊎◌, inl, inr, List, All, codes, arith}
use os_c.Terminal.{Terminal, print_text}
use os_c.Terminal.Screen.{Shows}
use os_c.Terminal.Sheet.{Sheet, type_text}
use os_c.Terminal.Text.{Prints, print_text-Prints}
use os_c.Printf.{Caller, terminal_printf}
use os_c.Printf.Outcome.{Result, ok, ◌>>=◌}
use os_c.Printf.Plain.{IsPlain, terminal_printf-print_text}
use os_c.FrameAllocator.{
  Allocator, Allocated, Status, success, failure, out_of_fuel, allocate_frame,
}
use os_c.FrameAllocator.Inv.{IsValid}
use os_c.FrameAllocator.Allocate.{allocate_frame-cases}

abbrev pub alloc_message : List ℕ
alloc_message = codes "alloc\n"

-- what is printed before the call returns
pub print_status : Caller → Status → Terminal → Result Terminal
print_status c success t = terminal_printf c alloc_message t
print_status c failure t = ok t
print_status c out_of_fuel t = ok t

pub allocate_frame_printing : Caller → Allocator → Terminal → Result (Allocated × Terminal)
allocate_frame_printing c a t = do
  t' ← print_status c (allocate_frame a).status t
  ok (allocate_frame a, t')

plain : (c : ℕ) → (c ≢ b'%') × (c ≢ b'\\') × (c ≢ b'\t') → IsPlain c
plain c (p, q, r) = record { no_directive = p; no_escape = q; no_tab = r }

message-IsPlain : All IsPlain alloc_message
message-IsPlain = (
  plain b'a' (ground arith),
  (
    plain b'l' (ground arith),
    (
      plain b'l' (ground arith),
      (plain b'o' (ground arith), (plain b'c' (ground arith), (plain b'\n' (ground arith), tt))),
    ),
  ),
)

-- From an allocator in its invariant, and a terminal that shows a sheet, `allocate_frame` with its
-- call of `terminal_printf` returns: either it succeeds, and the terminal shows the sheet with
-- `alloc` and a line break typed on it, with the rest of memory as before, or it fails and the
-- terminal is as it was.
pub allocate_frame_printing-cases :
    (c : Caller) {a : Allocator} {t : Terminal} {s : Sheet}
    → IsValid a
    → Shows t s
    → (u : Terminal) × (allocate_frame_printing c a t ≡ ok (allocate_frame a, u))
      × (((allocate_frame a).status ≡ success)
            × Prints t u (type_text t.default_color alloc_message s)
          ⊎ ((allocate_frame a).status ≡ failure) × (u ≡ t))
unfolding allocate_frame_printing print_status
allocate_frame_printing-cases c {a} {t} {s} v w = elim (allocate_frame-cases v).1 [
  | inl h ↦ (
    print_text alloc_message t,
    rw h.status (rw (terminal_printf-print_text c alloc_message t message-IsPlain)),
    inl (h.status, print_text-Prints alloc_message t.default_color refl w),
  )
  | inr r ↦ (t, rw r.status, inr (r.status, refl))
]
