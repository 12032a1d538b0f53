-- ===== src/Paging/Tests.antt =====
-- Two small pages from address 20480 on, mapped at entry 100 of an empty tree.
use best_kernel.Base.{ℕ, ◌^◌, ◌+◌, ◌≡◌, arith, ◌&&◌, leb, ltb, if◌then◌else◌, [], some, bit_or}
use best_kernel.Paging.{
  Process, vmto_entry, memreq_template, segfault, writeback, reserve, mem_alloc, mem_map, mem_unmap,
  deallocate_vm, smallpage,
}
use best_kernel.Paging.Handlers.{Faulting, Loaded, pagefault_handler}
use best_kernel.Paging.Mapping.{deallocate_vm-mem_map, mem_unmap-mem_map, sequence, read_back}
use best_kernel.Paging.Faults.{pagefault-mem_alloc}

abbrev empty_tree : Process
empty_tree = record {
  entries = λ a. 0;
  directories = λ a. [];
  words = λ a. 1;
  pagetree = 0;
  sigset = 0;
  calendar = 0;
}

abbrev no_file : ℕ → ℕ → Loaded
no_file desc page = record { page = 0; cache = 2; executable = 0 }

deallocate_vm-mem_map_example :
    deallocate_vm (some 100) 2 (mem_map 100 20480 smallpage 2 writeback empty_tree) ≡ (
      record empty_tree {
        entries = λ a.
            if leb 100 a && ltb a (100 + 2)
            then memreq_template 0 segfault writeback 0
            else (vmto_entry 100 (mem_map 100 20480 smallpage 2 writeback empty_tree)).entries a;
        calendar = 0;
      },
      sequence 2 0 (read_back 20480),
      0,
    )
deallocate_vm-mem_map_example =
    deallocate_vm-mem_map 100 20480 smallpage 2 writeback empty_tree (omega arith) (omega arith)
      (ground arith)

mem_unmap-mem_map_example :
    mem_unmap 16 100 2 smallpage (mem_map 100 20480 smallpage 2 writeback empty_tree) ≡ (
      record (vmto_entry 100 (mem_map 100 20480 smallpage 2 writeback empty_tree)) {
        sigset = bit_or 0 16;
      },
      2,
    )
mem_unmap-mem_map_example =
    mem_unmap-mem_map 100 20480 smallpage 2 writeback empty_tree (omega arith) (omega arith) 16
      (omega arith)

pagefault-mem_alloc_example :
    pagefault_handler 16 1 8192 smallpage 800 no_file []
      (record { entry = (mem_alloc 100 smallpage 2 empty_tree).entries (100 + 1); sigset = 0 })
    ≡ record {
      entry = bit_or (memreq_template smallpage reserve 0 0) (2 ^ 56);
      sigset = bit_or 0 16;
    }
pagefault-mem_alloc_example =
    pagefault-mem_alloc 16 1 8192 smallpage 800 100 2 1 no_file [] empty_tree (omega arith)
      (omega arith)

abbrev reserved_page : Faulting
reserved_page = record { entry = 1029; sigset = 0 }
