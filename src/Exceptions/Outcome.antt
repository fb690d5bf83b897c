-- ===== src/Exceptions/Outcome.antt =====
-- src/exceptions.c: how the handlers end, and what the screen then shows.
use os_c.Prelude.{ℕ, ◌≡◌, refl, List, [], ◌∷◌, get_or, ◌++◌}
use os_c.Terminal.{Terminal}
use os_c.Terminal.Sheet.{Sheet}
use os_c.Terminal.Screen.{Shows}
use os_c.Printf.Outcome.{ok}
use os_c.Printf.Pieces.{write_pieces, terminal_printf-pieces, write_pieces-Kept}
use os_c.Printf.Safe.{Kept, same}
use os_c.Exceptions.{
  ExceptionInfo, ExceptionId, arguments, Handled, returned, stopped, exception_info,
  exception_info_with_error, ex_divide_by_zero, ex_debug, ex_breakpont, ex_overflow,
  ex_bound_range_exceeded, ex_invalid_opcode, ex_device_not_available, ex_double_fault,
  ex_coprocessor_segement_overrun, ex_invalid_tss, ex_segement_not_present, ex_stack_segement_fault,
  ex_general_protection_fault, ex_page_fault, ex_x87_fpu_exception, ex_alignment_check,
  ex_machine_check, ex_simd_fp, ex_vx, ex_security, divide_by_zero_handler, debug_handler,
  breakpont_handler, overflow_handler, bound_range_exceeded_handler, invalid_opcode_handler,
  device_not_available_handler, double_fault_handler, coprocessor_segement_overrun_handler,
  invalid_tss_handler, segement_not_present_handler, stack_segement_fault_handler,
  general_protection_fault_handler, page_fault_handler, x87_fpu_exception_handler,
  alignment_check_handler, machine_check_handler, simd_fp_handler, vx_handler, security_handler,
}
use os_c.Exceptions.Table.{exception_handler}
use os_c.Exceptions.Report.{
  error, error-IsSpelled, reported, report-reported, Kept-then, reported-Kept,
}

-- how a handler ends
abbrev pub outcome : ExceptionId → (ℕ → ℕ) → Terminal → Handled
outcome ex_divide_by_zero frame t = returned 0 (reported ex_divide_by_zero (exception_info frame) t)
outcome ex_debug frame t = stopped (reported ex_debug (exception_info frame) t)
outcome ex_breakpont frame t = stopped (reported ex_breakpont (exception_info frame) t)
outcome ex_overflow frame t = stopped t
outcome ex_bound_range_exceeded frame t = stopped t
outcome ex_invalid_opcode frame t = stopped t
outcome ex_device_not_available frame t = stopped t
outcome ex_double_fault frame t = stopped (reported ex_double_fault (exception_info frame) t)
outcome ex_coprocessor_segement_overrun frame t = stopped t
outcome ex_invalid_tss frame t = stopped t
outcome ex_segement_not_present frame t = stopped t
outcome ex_stack_segement_fault frame t = stopped t
outcome ex_general_protection_fault frame t = stopped t
outcome ex_page_fault frame t =
    let i = exception_info_with_error frame in
    stopped (write_pieces (arguments (i.error_code ∷ [])) 0 error (reported ex_page_fault i.info t))
outcome ex_x87_fpu_exception frame t = stopped t
outcome ex_alignment_check frame t = stopped t
outcome ex_machine_check frame t = stopped t
outcome ex_simd_fp frame t = stopped t
outcome ex_vx frame t = stopped t
outcome ex_security frame t = stopped t

-- Whatever the processor pushed, and whatever the terminal is, the handler of an exception returns
-- or stops the processor: those of a division by zero, of debugging, of breakpoints and of double
-- faults print the exception's name and the five words at their argument in base 16, the one of a
-- page fault prints its name, the five words behind the first, and then the first; the others print
-- nothing. Only the handler of a division by zero returns.
pub exception_handler-outcome :
    (e : ExceptionId) (frame : ℕ → ℕ) (t : Terminal)
    → exception_handler e frame t ≡ ok (outcome e frame t)
unfolding divide_by_zero_handler debug_handler breakpont_handler overflow_handler
    bound_range_exceeded_handler invalid_opcode_handler device_not_available_handler
    double_fault_handler coprocessor_segement_overrun_handler invalid_tss_handler
    segement_not_present_handler stack_segement_fault_handler general_protection_fault_handler
    page_fault_handler x87_fpu_exception_handler alignment_check_handler machine_check_handler
    simd_fp_handler vx_handler security_handler
exception_handler-outcome ex_divide_by_zero frame t =
    rw (report-reported ex_divide_by_zero (exception_info frame) t) refl
exception_handler-outcome ex_debug frame t =
    rw (report-reported ex_debug (exception_info frame) t) refl
exception_handler-outcome ex_breakpont frame t =
    rw (report-reported ex_breakpont (exception_info frame) t) refl
exception_handler-outcome ex_overflow frame t = refl
exception_handler-outcome ex_bound_range_exceeded frame t = refl
exception_handler-outcome ex_invalid_opcode frame t = refl
exception_handler-outcome ex_device_not_available frame t = refl
exception_handler-outcome ex_double_fault frame t =
    rw (report-reported ex_double_fault (exception_info frame) t) refl
exception_handler-outcome ex_coprocessor_segement_overrun frame t = refl
exception_handler-outcome ex_invalid_tss frame t = refl
exception_handler-outcome ex_segement_not_present frame t = refl
exception_handler-outcome ex_stack_segement_fault frame t = refl
exception_handler-outcome ex_general_protection_fault frame t = refl
exception_handler-outcome ex_page_fault frame t =
    let i = exception_info_with_error frame in
    rw
      (
        report-reported ex_page_fault i.info t,
        terminal_printf-pieces (arguments (i.error_code ∷ [])) error
            (reported ex_page_fault i.info t) error-IsSpelled,
      )
      refl
exception_handler-outcome ex_x87_fpu_exception frame t = refl
exception_handler-outcome ex_alignment_check frame t = refl
exception_handler-outcome ex_machine_check frame t = refl
exception_handler-outcome ex_simd_fp frame t = refl
exception_handler-outcome ex_vx frame t = refl
exception_handler-outcome ex_security frame t = refl

abbrev pub terminal_of : Handled → Terminal
terminal_of (returned v t) = t
terminal_of (stopped t) = t

outcome-Kept :
    (e : ExceptionId) (frame : ℕ → ℕ) {t : Terminal} {s : Sheet}
    → Shows t s
    → Kept t (terminal_of (outcome e frame t))
outcome-Kept ex_divide_by_zero frame w = reported-Kept ex_divide_by_zero (exception_info frame) w
outcome-Kept ex_debug frame w = reported-Kept ex_debug (exception_info frame) w
outcome-Kept ex_breakpont frame w = reported-Kept ex_breakpont (exception_info frame) w
outcome-Kept ex_overflow frame w = same w
outcome-Kept ex_bound_range_exceeded frame w = same w
outcome-Kept ex_invalid_opcode frame w = same w
outcome-Kept ex_device_not_available frame w = same w
outcome-Kept ex_double_fault frame w = reported-Kept ex_double_fault (exception_info frame) w
outcome-Kept ex_coprocessor_segement_overrun frame w = same w
outcome-Kept ex_invalid_tss frame w = same w
outcome-Kept ex_segement_not_present frame w = same w
outcome-Kept ex_stack_segement_fault frame w = same w
outcome-Kept ex_general_protection_fault frame w = same w
outcome-Kept ex_page_fault frame w =
    let i = exception_info_with_error frame in
    Kept-then (reported-Kept ex_page_fault i.info w)
      (λ _. write_pieces-Kept (arguments (i.error_code ∷ [])) error error-IsSpelled)
outcome-Kept ex_x87_fpu_exception frame w = same w
outcome-Kept ex_alignment_check frame w = same w
outcome-Kept ex_machine_check frame w = same w
outcome-Kept ex_simd_fp frame w = same w
outcome-Kept ex_vx frame w = same w
outcome-Kept ex_security frame w = same w

-- On a terminal that shows a sheet, the handler of every exception returns or stops the processor,
-- with the cursor on the screen, the sizes and colours as before, and no memory outside of the
-- screen written.
pub exception_handler-Kept :
    (e : ExceptionId) (frame : ℕ → ℕ) {t : Terminal} {s : Sheet}
    → Shows t s
    → (r : Handled) × (exception_handler e frame t ≡ ok r) × Kept t (terminal_of r)
exception_handler-Kept e frame {t} w =
    (outcome e frame t, exception_handler-outcome e frame t, outcome-Kept e frame w)

-- the words from the handler's argument on; for some exceptions an error code stands before the rest
abbrev pub pushed : List ℕ → ExceptionInfo → ℕ → ℕ
pushed code i k =
    get_or
      (code ++ i.instruction_ptr ∷ i.code_segement ∷ i.flags ∷ i.stack_ptr ∷ i.stack_segement ∷ [])
      k 0
