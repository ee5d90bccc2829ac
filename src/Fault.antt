-- ===== src/Fault.antt =====
-- The exceptions that the modelled code raises, each with the constant part of its message.
use gpu_infra.Prelude.{String}

pub data Fault : Type 0 where
  contract_error value_error key_error type_error runtime_error os_error : String → Fault
  -- `float(n)` of an int that no float can hold
  overflow_error zero_division_error : Fault
