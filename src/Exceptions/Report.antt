-- ===== src/Exceptions/Report.antt =====
-- src/exceptions.c: what the handlers print, and how they end.
use os_c.Prelude.{◌≡◌, refl, List, [], ◌∷◌, codes, All, true}
use os_c.Terminal.{Terminal, print_text}
use os_c.Terminal.Sheet.{Sheet}
use os_c.Terminal.Screen.{Shows}
use os_c.Printf.Outcome.{ok}
use os_c.Printf.Directives.{Flag, Length}
use os_c.Printf.Plain.{is_plain, all_plain, all_plain-IsPlain, terminal_printf-print_text}
use os_c.Printf.Pieces.{
  Piece, plain, tab, upper, write_pieces, IsSpelled, all_spelled, all_spelled-IsSpelled,
  terminal_printf-pieces, write_pieces-Kept,
}
use os_c.Printf.Safe.{Kept, Kept-trans, print_text-Kept}
use os_c.Exceptions.{
  ExceptionInfo, ExceptionId, number, exception_id_string, arguments, report, ex_divide_by_zero,
  ex_debug, ex_breakpont, ex_overflow, ex_bound_range_exceeded, ex_invalid_opcode,
  ex_device_not_available, ex_double_fault, ex_coprocessor_segement_overrun, ex_invalid_tss,
  ex_segement_not_present, ex_stack_segement_fault, ex_general_protection_fault, ex_page_fault,
  ex_x87_fpu_exception, ex_alignment_check, ex_machine_check, ex_simd_fp, ex_vx, ex_security,
}

abbrev word : Piece
word = upper Flag.hash Length.z

abbrev pointers : List Piece
pointers =
    plain (codes "iptr: ")
    ∷ word
    ∷ plain (codes " ")
    ∷ tab
    ∷ plain (codes " code_seg: ")
    ∷ word
    ∷ plain (codes " ")
    ∷ tab
    ∷ plain (codes " flags: ")
    ∷ word
    ∷ plain (codes "\n")
    ∷ []

abbrev stack : List Piece
stack =
    plain (codes "Stackptr: ")
    ∷ word
    ∷ plain (codes " ")
    ∷ tab
    ∷ plain (codes " Stackseg: ")
    ∷ word
    ∷ plain (codes "\n")
    ∷ []

abbrev pub error : List Piece
error = plain (codes "Error code: ") ∷ word ∷ plain (codes "\n") ∷ []

-- the name of the exception, and the saved registers in base 16
abbrev pub reported : ExceptionId → ExceptionInfo → Terminal → Terminal
reported e i t = write_pieces (arguments (i.stack_ptr ∷ i.stack_segement ∷ [])) 0 stack (
    write_pieces (arguments (i.instruction_ptr ∷ i.code_segement ∷ i.flags ∷ [])) 0 pointers
      (print_text (exception_id_string e) t))

name-Plain : (e : ExceptionId) → all_plain (exception_id_string e) ≡ true
unfolding number all_plain is_plain
name-Plain ex_divide_by_zero = refl
name-Plain ex_debug = refl
name-Plain ex_breakpont = refl
name-Plain ex_overflow = refl
name-Plain ex_bound_range_exceeded = refl
name-Plain ex_invalid_opcode = refl
name-Plain ex_device_not_available = refl
name-Plain ex_double_fault = refl
name-Plain ex_coprocessor_segement_overrun = refl
name-Plain ex_invalid_tss = refl
name-Plain ex_segement_not_present = refl
name-Plain ex_stack_segement_fault = refl
name-Plain ex_general_protection_fault = refl
name-Plain ex_page_fault = refl
name-Plain ex_x87_fpu_exception = refl
name-Plain ex_alignment_check = refl
name-Plain ex_machine_check = refl
name-Plain ex_simd_fp = refl
name-Plain ex_vx = refl
name-Plain ex_security = refl

pointers-IsSpelled : All IsSpelled pointers
unfolding all_spelled all_plain is_plain
pointers-IsSpelled = all_spelled-IsSpelled pointers refl

stack-IsSpelled : All IsSpelled stack
unfolding all_spelled all_plain is_plain
stack-IsSpelled = all_spelled-IsSpelled stack refl

pub error-IsSpelled : All IsSpelled error
unfolding all_spelled all_plain is_plain
error-IsSpelled = all_spelled-IsSpelled error refl

pub report-reported :
    (e : ExceptionId) (i : ExceptionInfo) (t : Terminal) → report e i t ≡ ok (reported e i t)
unfolding report
report-reported e i t =
    let named = print_text (exception_id_string e) t in
    let first = arguments (i.instruction_ptr ∷ i.code_segement ∷ i.flags ∷ []) in
    let second = arguments (i.stack_ptr ∷ i.stack_segement ∷ []) in
    rw
      (
        terminal_printf-print_text (arguments []) (exception_id_string e) t
            (all_plain-IsPlain (exception_id_string e) (name-Plain e)),
        terminal_printf-pieces first pointers named pointers-IsSpelled,
      )
      (terminal_printf-pieces second stack (write_pieces first 0 pointers named) stack-IsSpelled)

pub Kept-then : {t u v : Terminal} → Kept t u → ((s : Sheet) → Shows u s → Kept u v) → Kept t v
Kept-then (s, p) next = Kept-trans (s, p) (next s p.shows)

pub reported-Kept :
    (e : ExceptionId) (i : ExceptionInfo) {t : Terminal} {s : Sheet}
    → Shows t s
    → Kept t (reported e i t)
reported-Kept e i w =
    let named = print_text-Kept w (exception_id_string e) in
    let first = arguments (i.instruction_ptr ∷ i.code_segement ∷ i.flags ∷ []) in
    let second = arguments (i.stack_ptr ∷ i.stack_segement ∷ []) in
    Kept-then (Kept-then named (λ _. write_pieces-Kept first pointers pointers-IsSpelled))
      (λ _. write_pieces-Kept second stack stack-IsSpelled)
