-- ===== src/Exceptions.antt =====
-- src/exceptions.c: the handlers of the processor's exceptions. A handler gets the address of what the
-- processor pushed; `frame k` is the k-th word of 64 bits from there on. `hlt` stops the processor: the
-- interrupt gates of src/arch/x86_64/boot64.s leave interrupts off.
mod Names
mod Report
pub mod Outcome
pub mod Table
mod Tests
use os_c.Prelude.{ℕ, ◌+◌, List, [], ◌∷◌, get_or, codes, map}
use os_c.Terminal.{Terminal}
use os_c.Printf.{Caller, terminal_printf}
use os_c.Printf.Outcome.{Result, ok, halted, fault, out_of_fuel, ◌>>=◌}
use os_c.Pic.{add_interrupt_handler}

pub record ExceptionInfo : Type 0 where
  pub instruction_ptr : ℕ
  pub code_segement : ℕ
  pub flags : ℕ
  pub stack_ptr : ℕ
  pub stack_segement : ℕ

pub record ExceptionInfoWithError : Type 0 where
  pub error_code : ℕ
  pub info : ExceptionInfo

abbrev pub exception_info : (ℕ → ℕ) → ExceptionInfo
exception_info frame = record {
  instruction_ptr = frame 0;
  code_segement = frame 1;
  flags = frame 2;
  stack_ptr = frame 3;
  stack_segement = frame 4;
}

abbrev pub exception_info_with_error : (ℕ → ℕ) → ExceptionInfoWithError
exception_info_with_error frame = record {
  error_code = frame 0;
  info = exception_info (λ k. frame (k + 1));
}

pub data ExceptionId : Type 0 where
  ex_divide_by_zero : ExceptionId
  ex_debug : ExceptionId
  ex_breakpont : ExceptionId
  ex_overflow : ExceptionId
  ex_bound_range_exceeded : ExceptionId
  ex_invalid_opcode : ExceptionId
  ex_device_not_available : ExceptionId
  ex_double_fault : ExceptionId
  ex_coprocessor_segement_overrun : ExceptionId
  ex_invalid_tss : ExceptionId
  ex_segement_not_present : ExceptionId
  ex_stack_segement_fault : ExceptionId
  ex_general_protection_fault : ExceptionId
  ex_page_fault : ExceptionId
  ex_x87_fpu_exception : ExceptionId
  ex_alignment_check : ExceptionId
  ex_machine_check : ExceptionId
  ex_simd_fp : ExceptionId
  ex_vx : ExceptionId
  ex_security : ExceptionId

unfoldable pub number : ExceptionId → ℕ
number ex_divide_by_zero = 0x0
number ex_debug = 0x1
number ex_breakpont = 0x3
number ex_overflow = 0x4
number ex_bound_range_exceeded = 0x5
number ex_invalid_opcode = 0x6
number ex_device_not_available = 0x7
number ex_double_fault = 0x8
number ex_coprocessor_segement_overrun = 0x9
number ex_invalid_tss = 0xa
number ex_segement_not_present = 0xb
number ex_stack_segement_fault = 0xc
number ex_general_protection_fault = 0xd
number ex_page_fault = 0xe
number ex_x87_fpu_exception = 0x10
number ex_alignment_check = 0x11
number ex_machine_check = 0x12
number ex_simd_fp = 0x13
number ex_vx = 0x14
number ex_security = 0x1e

abbrev pub exception_id_strings : List (List ℕ)
exception_id_strings =
    codes "divide_by_zero"
    ∷ codes "debug"
    ∷ codes "--pic--"
    ∷ codes "breakpont"
    ∷ codes "overflow"
    ∷ codes "bound_range_exceeded"
    ∷ codes "invalid_opcode"
    ∷ codes "device_not_available"
    ∷ codes "double_fault"
    ∷ codes "coprocessor_segement_overrun"
    ∷ codes "invalid_tss"
    ∷ codes "segement_not_present"
    ∷ codes "stack_segement_fault"
    ∷ codes "general_protection_fault"
    ∷ codes "page_fault"
    ∷ codes "x87_fpu_exception"
    ∷ codes "alignment_check"
    ∷ codes "machine_check"
    ∷ codes "simd_fp"
    ∷ codes "vx"
    ∷ []

abbrev pub exception_id_string : ExceptionId → List ℕ
exception_id_string e = get_or exception_id_strings (number e) []

-- the arguments of a call of `terminal_printf`
abbrev pub arguments : List ℕ → Caller
arguments slots = record { string_at = λ a. []; arg = λ k. get_or slots k 0 }

-- the three calls that the handlers start with
unfoldable pub report : ExceptionId → ExceptionInfo → Terminal → Result Terminal
report e i t = do
  named ← terminal_printf (arguments []) (exception_id_string e) t
  pointed ←
      terminal_printf (arguments (i.instruction_ptr ∷ i.code_segement ∷ i.flags ∷ []))
        (codes "iptr: %#zX \t code_seg: %#zX \t flags: %#zX\n") named
  terminal_printf (arguments (i.stack_ptr ∷ i.stack_segement ∷ []))
      (codes "Stackptr: %#zX \t Stackseg: %#zX\n") pointed

-- A handler returns a value, or stops the processor.
pub data Handled : Type 0 where
  returned : ℕ → Terminal → Handled
  stopped : Terminal → Handled

unfoldable pub divide_by_zero_handler : (ℕ → ℕ) → Terminal → Result Handled
divide_by_zero_handler frame t = do
  t' ← report ex_divide_by_zero (exception_info frame) t
  ok (returned 0 t')

unfoldable pub debug_handler : (ℕ → ℕ) → Terminal → Result Handled
debug_handler frame t = do t' ← report ex_debug (exception_info frame) t; ok (stopped t')

unfoldable pub breakpont_handler : (ℕ → ℕ) → Terminal → Result Handled
breakpont_handler frame t = do t' ← report ex_breakpont (exception_info frame) t; ok (stopped t')

unfoldable pub double_fault_handler : (ℕ → ℕ) → Terminal → Result Handled
double_fault_handler frame t = do
  t' ← report ex_double_fault (exception_info frame) t
  ok (stopped t')

unfoldable pub page_fault_handler : (ℕ → ℕ) → Terminal → Result Handled
page_fault_handler frame t = do
  let i = exception_info_with_error frame
  reported ← report ex_page_fault i.info t
  t' ← terminal_printf (arguments (i.error_code ∷ [])) (codes "Error code: %#zX\n") reported
  ok (stopped t')

unfoldable pub overflow_handler : (ℕ → ℕ) → Terminal → Result Handled
overflow_handler frame t = ok (stopped t)

unfoldable pub bound_range_exceeded_handler : (ℕ → ℕ) → Terminal → Result Handled
bound_range_exceeded_handler frame t = ok (stopped t)

unfoldable pub invalid_opcode_handler : (ℕ → ℕ) → Terminal → Result Handled
invalid_opcode_handler frame t = ok (stopped t)

unfoldable pub device_not_available_handler : (ℕ → ℕ) → Terminal → Result Handled
device_not_available_handler frame t = ok (stopped t)

unfoldable pub coprocessor_segement_overrun_handler : (ℕ → ℕ) → Terminal → Result Handled
coprocessor_segement_overrun_handler frame t = ok (stopped t)

unfoldable pub invalid_tss_handler : (ℕ → ℕ) → Terminal → Result Handled
invalid_tss_handler frame t = ok (stopped t)

unfoldable pub segement_not_present_handler : (ℕ → ℕ) → Terminal → Result Handled
segement_not_present_handler frame t = ok (stopped t)

unfoldable pub stack_segement_fault_handler : (ℕ → ℕ) → Terminal → Result Handled
stack_segement_fault_handler frame t = ok (stopped t)

unfoldable pub general_protection_fault_handler : (ℕ → ℕ) → Terminal → Result Handled
general_protection_fault_handler frame t = ok (stopped t)

unfoldable pub x87_fpu_exception_handler : (ℕ → ℕ) → Terminal → Result Handled
x87_fpu_exception_handler frame t = ok (stopped t)

unfoldable pub alignment_check_handler : (ℕ → ℕ) → Terminal → Result Handled
alignment_check_handler frame t = ok (stopped t)

unfoldable pub machine_check_handler : (ℕ → ℕ) → Terminal → Result Handled
machine_check_handler frame t = ok (stopped t)

unfoldable pub simd_fp_handler : (ℕ → ℕ) → Terminal → Result Handled
simd_fp_handler frame t = ok (stopped t)

unfoldable pub vx_handler : (ℕ → ℕ) → Terminal → Result Handled
vx_handler frame t = ok (stopped t)

unfoldable pub security_handler : (ℕ → ℕ) → Terminal → Result Handled
security_handler frame t = ok (stopped t)

abbrev pub HandlerFunction : Type 0
HandlerFunction = (ℕ → ℕ) → Terminal → Result Handled

-- the calls of `init_exception_handlers`, in order
abbrev pub registrations : List (ExceptionId × HandlerFunction)
registrations =
    (ex_divide_by_zero, divide_by_zero_handler)
    ∷ (ex_debug, debug_handler)
    ∷ (ex_breakpont, breakpont_handler)
    ∷ (ex_overflow, overflow_handler)
    ∷ (ex_bound_range_exceeded, bound_range_exceeded_handler)
    ∷ (ex_invalid_opcode, invalid_opcode_handler)
    ∷ (ex_device_not_available, device_not_available_handler)
    ∷ (ex_double_fault, double_fault_handler)
    ∷ (ex_coprocessor_segement_overrun, coprocessor_segement_overrun_handler)
    ∷ (ex_invalid_tss, invalid_tss_handler)
    ∷ (ex_segement_not_present, segement_not_present_handler)
    ∷ (ex_stack_segement_fault, stack_segement_fault_handler)
    ∷ (ex_general_protection_fault, general_protection_fault_handler)
    ∷ (ex_page_fault, page_fault_handler)
    ∷ (ex_x87_fpu_exception, x87_fpu_exception_handler)
    ∷ (ex_alignment_check, alignment_check_handler)
    ∷ (ex_machine_check, machine_check_handler)
    ∷ (ex_simd_fp, simd_fp_handler)
    ∷ (ex_vx, vx_handler)
    ∷ (ex_security, security_handler)
    ∷ []

-- `wrap` makes an entry of the table from a handler of an exception.
unfoldable pub add_all {ℓ} :
    {A : Type ℓ} → (HandlerFunction → A) → List (ExceptionId × HandlerFunction) → (ℕ → A) → ℕ → A
add_all wrap [] table = table
add_all wrap ((e, handler) ∷ rest) table =
    add_all wrap rest (add_interrupt_handler (number e) (wrap handler) table)

unfoldable pub init_exception_handlers {ℓ} : {A : Type ℓ} → (HandlerFunction → A) → (ℕ → A) → ℕ → A
init_exception_handlers wrap table = add_all wrap registrations table
