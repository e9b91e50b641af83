-- ===== src/Idt/Examples.antt =====
-- The interrupt tables of src/idt/idt.c with made-up addresses.
use udemy_kernel.Prelude.{◌+◌, arith}
use udemy_kernel.Idt.{Addresses, Interrupts, idt_init}
use udemy_kernel.Idt.Table.{idt_init-IsGate, IsGate}

abbrev sample : Addresses
sample = record {
  interrupt_pointer_table = λ i. 0x100000 + i;
  idt_zero = 0x200000;
  isr80h_wrapper = 0x200010;
  idt_handle_exception = 0x200020;
  idt_clock = 0x200030;
  idt_descriptors = 0x300000;
}

abbrev at_start : Interrupts
at_start = record {
  descriptors =
      λ _. record { offset_low = 1; selector = 1; zero = 1; type_attr = 1; offset_high = 1 };
  idtr = record { limit = 0; base = 0 };
  callbacks = λ _. 0;
}

idt_init-IsGate_example : IsGate ((idt_init sample at_start).descriptors 0x80) 0x200010
idt_init-IsGate_example = idt_init-IsGate sample at_start 0x80 (omega arith)
