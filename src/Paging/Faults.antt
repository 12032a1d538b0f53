-- ===== src/Paging/Faults.antt =====
-- What a page fault does to an entry.
use best_kernel.Base.{
  ℕ, ◌+◌, ◌*◌, ◌/◌, ◌%◌, ◌^◌, ◌<◌, ◌≡◌, arith, bit_or, ◌==◌, if◌then◌else◌, shl64, shr, List, ◌≢◌,
}
use best_kernel.Base.Bits.{and_single, or_single, or_div, or_step}
use best_kernel.Paging.{
  Process, vmto_entry, exchange_swap, memreq_template, reserve, mem_alloc, write_entries,
}
use best_kernel.Paging.Handlers.{
  Faulting, Loaded, Partition, softfault_handler, hardfault_handler, pagefault_handler,
}
use best_kernel.Paging.Entries.{memreq_template_sum, write_entries_lem}

-- A page fault on an entry whose digits 2 to 11 are not exactly 3 only sets digit 56 and raises SIGSEGV, whatever the
-- entry's mode: entries lie at multiples of 8, and it is the entry's address, not the entry, that
-- decides between the two handlers.
pagefault_segv :
    (segv kill phys pagetype place : ℕ) (load : ℕ → ℕ → Loaded) (parts : List Partition)
    (f : Faulting)
    → place % 8 ≡ 0
    → f.entry / 4 % 2 ^ 10 ≢ 3
    → pagefault_handler segv kill phys pagetype place load parts f
      ≡ record { entry = bit_or f.entry (2 ^ 56); sigset = bit_or f.sigset segv }
unfolding pagefault_handler hardfault_handler
pagefault_segv segv kill phys pagetype place load parts f a h =
    ground (arith, and_single 0 place, or_single 56 f.entry)

-- The first use of a page that mem_alloc has reserved is answered by SIGSEGV, and the entry stays
-- without a page: what mem_alloc wrote changes only in digit 56, which vmto_entry sets. The entry's own address is a multiple of 8.
pub pagefault-mem_alloc :
    (segv kill phys pagetype place at pages_number i : ℕ) (load : ℕ → ℕ → Loaded)
    (parts : List Partition) (p : Process)
    → place % 8 ≡ 0
    → i < pages_number
    → pagefault_handler segv kill phys pagetype place load parts (record {
      entry = (mem_alloc at pagetype pages_number p).entries (at + i);
      sigset = p.sigset;
    })
      ≡ record {
        entry = bit_or (memreq_template pagetype reserve 0 0) (2 ^ 56);
        sigset = bit_or p.sigset segv;
      }
unfolding mem_alloc
pagefault-mem_alloc segv kill phys pagetype place at pages_number i load parts p a h =
    let value =
      memreq_template_sum pagetype reserve 0 0 (omega arith) (omega arith) (omega arith) in
    let there =
      write_entries_lem pages_number 0 at (λ h. memreq_template pagetype reserve 0 0)
        (vmto_entry at p).entries (at + i) in
    let made : write_entries pages_number 0 at (λ h. memreq_template pagetype reserve 0 0)
          (vmto_entry at p).entries (at + i)
        ≡ memreq_template pagetype reserve 0 0 =
      ground (arith, there) in
    rw made (pagefault_segv segv kill phys pagetype place load parts _ a (omega (arith, value)))

or_three : (y : ℕ) → bit_or y 3 % 4 ≡ 3
or_three y = omega (arith, or_step y 3, or_step (y / 2) 1)

or_multiple_of_four : (z w : ℕ) → w % 4 ≡ 0 → bit_or z w % 4 ≡ z % 4
or_multiple_of_four z w h = omega (arith, or_step z w, or_step (z / 2) (w / 2))

exchange_swap_digits :
    (entry diskpos swap_number : ℕ) → (exchange_swap entry diskpos swap_number).0 / 2 ^ 10 % 4 ≡ 3
unfolding exchange_swap
exchange_swap_digits entry diskpos swap_number =
    let low = bit_or diskpos (shr (shl64 entry 55) 55) in
    ground (
      arith,
      or_div 10 (bit_or low (3 * 2 ^ 10)) (shl64 swap_number 57),
      or_div 10 low (3 * 2 ^ 10),
      or_three (low / 2 ^ 10),
      or_multiple_of_four (bit_or (low / 2 ^ 10) 3) (shl64 swap_number 57 / 2 ^ 10),
    )

-- A page that exchange_swap has put on a disk does not come back: the next fault on it raises
-- SIGSEGV and leaves the entry as it is but for digit 56, since SWAPPED is stored one digit too high and read together
-- with the seven digits below it. The entry's own address is a multiple of 8.
pagefault-exchange_swap :
    (segv kill phys pagetype place entry diskpos swap_number sigset : ℕ) (load : ℕ → ℕ → Loaded)
    (parts : List Partition)
    → place % 8 ≡ 0
    → pagefault_handler segv kill phys pagetype place load parts
        (record { entry = (exchange_swap entry diskpos swap_number).0; sigset = sigset })
      ≡ record {
        entry = bit_or (exchange_swap entry diskpos swap_number).0 (2 ^ 56);
        sigset = bit_or sigset segv;
      }
pagefault-exchange_swap segv kill phys pagetype place entry diskpos swap_number sigset load parts
      a =
    pagefault_segv segv kill phys pagetype place load parts
      (record { entry = (exchange_swap entry diskpos swap_number).0; sigset = sigset }) a
      (omega (arith, exchange_swap_digits entry diskpos swap_number))

-- softfault_handler serves no page: if the mode of an entry is not 0, it
-- leaves the entry as it is, and the only signal that it may raise is for digit 2 of the entry.
softfault_idle :
    (segv phys pagetype : ℕ) (load : ℕ → ℕ → Loaded) (f : Faulting)
    → f.entry / 2 ^ 9 % 8 ≢ 0
    → softfault_handler segv phys pagetype load f
      ≡ record f { sigset = if f.entry / 4 % 2 == 0 then f.sigset else bit_or f.sigset segv }
unfolding softfault_handler
softfault_idle segv phys pagetype load f h = ground arith
