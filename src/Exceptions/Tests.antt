-- ===== src/Exceptions/Tests.antt =====
-- src/exceptions.c: a page fault and a double fault.
use os_c.Prelude.{◌≡◌, ◌≢◌, ◌<◌, ◌≤◌, ◌⊎◌, [], ◌∷◌, some, get_elem?}
use os_c.Terminal.Tests.{screen}
use os_c.Printf.Outcome.{ok}
use os_c.Exceptions.{
  ex_page_fault, ex_x87_fpu_exception, number, exception_id_strings, ExceptionInfo,
}
use os_c.Exceptions.Names.{name, exception_id_strings-name}
use os_c.Exceptions.Table.{exception_handler}
use os_c.Exceptions.Outcome.{outcome, pushed, exception_handler-outcome}

abbrev registers : ExceptionInfo
registers = record {
  instruction_ptr = 0x101234;
  code_segement = 8;
  flags = 0x202;
  stack_ptr = 0x109ff0;
  stack_segement = 0;
}

exception_id_strings-name_example :
    ((number ex_x87_fpu_exception < 0x10)
      × (get_elem? exception_id_strings (number ex_x87_fpu_exception)
          ≡ some (name ex_x87_fpu_exception)))
    ⊎ ((0x10 ≤ number ex_x87_fpu_exception)
        × (get_elem? exception_id_strings (number ex_x87_fpu_exception)
            ≢ some (name ex_x87_fpu_exception)))
exception_id_strings-name_example = exception_id_strings-name ex_x87_fpu_exception

exception_handler-outcome_example :
    exception_handler ex_page_fault (pushed (2 ∷ []) registers) screen
    ≡ ok (outcome ex_page_fault (pushed (2 ∷ []) registers) screen)
exception_handler-outcome_example =
    exception_handler-outcome ex_page_fault (pushed (2 ∷ []) registers) screen
