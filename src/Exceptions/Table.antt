-- ===== src/Exceptions/Table.antt =====
-- src/exceptions.c, `init_exception_handlers`: which handler the table has for a number.
use os_c.Prelude.{ℕ, ◌<◌, ◌≡◌, ◌≢◌, refl, ◌∙◌, ◌==◌, List, [], ◌∷◌, u16, false, arith}
use os_c.Pic.{add_interrupt_handler}
use os_c.Exceptions.{
  ExceptionId, number, HandlerFunction, registrations, add_all, init_exception_handlers,
  ex_divide_by_zero, ex_debug, ex_breakpont, ex_overflow, ex_bound_range_exceeded,
  ex_invalid_opcode, ex_device_not_available, ex_double_fault, ex_coprocessor_segement_overrun,
  ex_invalid_tss, ex_segement_not_present, ex_stack_segement_fault, ex_general_protection_fault,
  ex_page_fault, ex_x87_fpu_exception, ex_alignment_check, ex_machine_check, ex_simd_fp, ex_vx,
  ex_security, divide_by_zero_handler, debug_handler, breakpont_handler, overflow_handler,
  bound_range_exceeded_handler, invalid_opcode_handler, device_not_available_handler,
  double_fault_handler, coprocessor_segement_overrun_handler, invalid_tss_handler,
  segement_not_present_handler, stack_segement_fault_handler, general_protection_fault_handler,
  page_fault_handler, x87_fpu_exception_handler, alignment_check_handler, machine_check_handler,
  simd_fp_handler, vx_handler, security_handler,
}

-- the handler of an exception
abbrev pub exception_handler : ExceptionId → HandlerFunction
exception_handler ex_divide_by_zero = divide_by_zero_handler
exception_handler ex_debug = debug_handler
exception_handler ex_breakpont = breakpont_handler
exception_handler ex_overflow = overflow_handler
exception_handler ex_bound_range_exceeded = bound_range_exceeded_handler
exception_handler ex_invalid_opcode = invalid_opcode_handler
exception_handler ex_device_not_available = device_not_available_handler
exception_handler ex_double_fault = double_fault_handler
exception_handler ex_coprocessor_segement_overrun = coprocessor_segement_overrun_handler
exception_handler ex_invalid_tss = invalid_tss_handler
exception_handler ex_segement_not_present = segement_not_present_handler
exception_handler ex_stack_segement_fault = stack_segement_fault_handler
exception_handler ex_general_protection_fault = general_protection_fault_handler
exception_handler ex_page_fault = page_fault_handler
exception_handler ex_x87_fpu_exception = x87_fpu_exception_handler
exception_handler ex_alignment_check = alignment_check_handler
exception_handler ex_machine_check = machine_check_handler
exception_handler ex_simd_fp = simd_fp_handler
exception_handler ex_vx = vx_handler
exception_handler ex_security = security_handler

own {ℓ} :
    {A : Type ℓ} (wrap : HandlerFunction → A) (table : ℕ → A) (e : ExceptionId)
    → init_exception_handlers wrap table (number e) ≡ wrap (exception_handler e)
unfolding init_exception_handlers add_all add_interrupt_handler number
own wrap table ex_divide_by_zero = refl
own wrap table ex_debug = refl
own wrap table ex_breakpont = refl
own wrap table ex_overflow = refl
own wrap table ex_bound_range_exceeded = refl
own wrap table ex_invalid_opcode = refl
own wrap table ex_device_not_available = refl
own wrap table ex_double_fault = refl
own wrap table ex_coprocessor_segement_overrun = refl
own wrap table ex_invalid_tss = refl
own wrap table ex_segement_not_present = refl
own wrap table ex_stack_segement_fault = refl
own wrap table ex_general_protection_fault = refl
own wrap table ex_page_fault = refl
own wrap table ex_x87_fpu_exception = refl
own wrap table ex_alignment_check = refl
own wrap table ex_machine_check = refl
own wrap table ex_simd_fp = refl
own wrap table ex_vx = refl
own wrap table ex_security = refl

others_from {ℓ} :
    {A : Type ℓ} (wrap : HandlerFunction → A) (rs : List (ExceptionId × HandlerFunction))
    (table : ℕ → A) (i : ℕ)
    → ((e : ExceptionId) → (i == u16 (number e)) ≡ false)
    → add_all wrap rs table i ≡ table i
unfolding add_all add_interrupt_handler
others_from wrap [] table i p = refl
others_from wrap ((e, h) ∷ rs) table i p =
    others_from wrap rs (add_interrupt_handler (number e) (wrap h) table) i p ∙ rw (p e) refl

small : (e : ExceptionId) → u16 (number e) ≡ number e
unfolding number
small ex_divide_by_zero = refl
small ex_debug = refl
small ex_breakpont = refl
small ex_overflow = refl
small ex_bound_range_exceeded = refl
small ex_invalid_opcode = refl
small ex_device_not_available = refl
small ex_double_fault = refl
small ex_coprocessor_segement_overrun = refl
small ex_invalid_tss = refl
small ex_segement_not_present = refl
small ex_stack_segement_fault = refl
small ex_general_protection_fault = refl
small ex_page_fault = refl
small ex_x87_fpu_exception = refl
small ex_alignment_check = refl
small ex_machine_check = refl
small ex_simd_fp = refl
small ex_vx = refl
small ex_security = refl

others {ℓ} :
    {A : Type ℓ} (wrap : HandlerFunction → A) (table : ℕ → A) (i : ℕ)
    → ((e : ExceptionId) → i ≢ number e)
    → init_exception_handlers wrap table i ≡ table i
unfolding init_exception_handlers
others wrap table i p =
    others_from wrap registrations table i (λ e. let ne = p e in ground (arith, ne, small e))

-- After `init_exception_handlers` the table has every exception's handler under its number, and what
-- it had before under every number that is none of an exception.
pub init_exception_handlers-table {ℓ} :
    {A : Type ℓ} (wrap : HandlerFunction → A) (table : ℕ → A)
    → ((e : ExceptionId)
        → init_exception_handlers wrap table (number e) ≡ wrap (exception_handler e))
      × ((i : ℕ)
          → ((e : ExceptionId) → i ≢ number e)
          → init_exception_handlers wrap table i ≡ table i)
init_exception_handlers-table wrap table = (own wrap table, others wrap table)

pub number-bound : (e : ExceptionId) → number e < 0x1f
unfolding number
number-bound ex_divide_by_zero = omega arith
number-bound ex_debug = omega arith
number-bound ex_breakpont = omega arith
number-bound ex_overflow = omega arith
number-bound ex_bound_range_exceeded = omega arith
number-bound ex_invalid_opcode = omega arith
number-bound ex_device_not_available = omega arith
number-bound ex_double_fault = omega arith
number-bound ex_coprocessor_segement_overrun = omega arith
number-bound ex_invalid_tss = omega arith
number-bound ex_segement_not_present = omega arith
number-bound ex_stack_segement_fault = omega arith
number-bound ex_general_protection_fault = omega arith
number-bound ex_page_fault = omega arith
number-bound ex_x87_fpu_exception = omega arith
number-bound ex_alignment_check = omega arith
number-bound ex_machine_check = omega arith
number-bound ex_simd_fp = omega arith
number-bound ex_vx = omega arith
number-bound ex_security = omega arith
