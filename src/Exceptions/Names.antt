-- ===== src/Exceptions/Names.antt =====
-- src/exceptions.c, `exception_id_strings`: which numbers find the name of their exception.
use os_c.Prelude.{ℕ, ◌≤◌, ◌<◌, ◌≡◌, ◌≢◌, refl, List, some, get_elem?, codes, arith, ◌⊎◌, inl, inr}
use os_c.Exceptions.{
  ExceptionId, number, exception_id_strings, ex_divide_by_zero, ex_debug, ex_breakpont, ex_overflow,
  ex_bound_range_exceeded, ex_invalid_opcode, ex_device_not_available, ex_double_fault,
  ex_coprocessor_segement_overrun, ex_invalid_tss, ex_segement_not_present, ex_stack_segement_fault,
  ex_general_protection_fault, ex_page_fault, ex_x87_fpu_exception, ex_alignment_check,
  ex_machine_check, ex_simd_fp, ex_vx, ex_security,
}

-- the name of an exception, as its constant has it
abbrev pub name : ExceptionId → List ℕ
name ex_divide_by_zero = codes "divide_by_zero"
name ex_debug = codes "debug"
name ex_breakpont = codes "breakpont"
name ex_overflow = codes "overflow"
name ex_bound_range_exceeded = codes "bound_range_exceeded"
name ex_invalid_opcode = codes "invalid_opcode"
name ex_device_not_available = codes "device_not_available"
name ex_double_fault = codes "double_fault"
name ex_coprocessor_segement_overrun = codes "coprocessor_segement_overrun"
name ex_invalid_tss = codes "invalid_tss"
name ex_segement_not_present = codes "segement_not_present"
name ex_stack_segement_fault = codes "stack_segement_fault"
name ex_general_protection_fault = codes "general_protection_fault"
name ex_page_fault = codes "page_fault"
name ex_x87_fpu_exception = codes "x87_fpu_exception"
name ex_alignment_check = codes "alignment_check"
name ex_machine_check = codes "machine_check"
name ex_simd_fp = codes "simd_fp"
name ex_vx = codes "vx"
name ex_security = codes "security"

-- The name of an exception stands in `exception_id_strings` at the exception's number if that is
-- below 0x10; from 0x10 on the number finds another text or none.
pub exception_id_strings-name :
    (e : ExceptionId)
    → ((number e < 0x10) × (get_elem? exception_id_strings (number e) ≡ some (name e)))
      ⊎ ((0x10 ≤ number e) × (get_elem? exception_id_strings (number e) ≢ some (name e)))
unfolding number
exception_id_strings-name ex_divide_by_zero = inl (omega arith, refl)
exception_id_strings-name ex_debug = inl (omega arith, refl)
exception_id_strings-name ex_breakpont = inl (omega arith, refl)
exception_id_strings-name ex_overflow = inl (omega arith, refl)
exception_id_strings-name ex_bound_range_exceeded = inl (omega arith, refl)
exception_id_strings-name ex_invalid_opcode = inl (omega arith, refl)
exception_id_strings-name ex_device_not_available = inl (omega arith, refl)
exception_id_strings-name ex_double_fault = inl (omega arith, refl)
exception_id_strings-name ex_coprocessor_segement_overrun = inl (omega arith, refl)
exception_id_strings-name ex_invalid_tss = inl (omega arith, refl)
exception_id_strings-name ex_segement_not_present = inl (omega arith, refl)
exception_id_strings-name ex_stack_segement_fault = inl (omega arith, refl)
exception_id_strings-name ex_general_protection_fault = inl (omega arith, refl)
exception_id_strings-name ex_page_fault = inl (omega arith, refl)
exception_id_strings-name ex_x87_fpu_exception = inr (omega arith, λ e. ground (arith, e))
exception_id_strings-name ex_alignment_check = inr (omega arith, λ e. ground (arith, e))
exception_id_strings-name ex_machine_check = inr (omega arith, λ e. ground (arith, e))
exception_id_strings-name ex_simd_fp = inr (omega arith, λ e. ground (arith, e))
exception_id_strings-name ex_vx = inr (omega arith, λ e. ground (arith, e))
exception_id_strings-name ex_security = inr (omega arith, λ e. ground (arith, e))
