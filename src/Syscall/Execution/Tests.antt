-- ===== src/Syscall/Execution/Tests.antt =====
-- A program of three pages, whose second page is not loaded and whose slots are not given.
use best_kernel.Base.{◌-◌, ◌≡◌, refl, true}
use best_kernel.Syscall.Execution.{
  Header, Supply, Machine, Source, Caller, Program, check_checksum, exec,
}
use best_kernel.Syscall.Execution.Owners.{exec-SystemIsRoot}

abbrev small_header : Header
small_header = record {
  heapsize = 2;
  tls_size = 1;
  stacksize = 3;
  max_descriptors = 16;
  start = 64;
  program_type = 1;
  id = λ i. i;
  checksum = 93;
}

abbrev poor : Supply
poor = record {
  pages = λ i. i - 1;
  process = 7;
  worker = 0;
  slots = 0;
  main_thread = 9;
  second_descriptor = 11;
  tree = 4096;
  table = 8192;
  stack_libels = 1;
}

abbrev machine : Machine
machine = record {
  pool = 40;
  limit = 16;
  low_entries = 1;
  gdt = λ g. (0, 0);
  kernelcode = 512;
  codesize = 3;
  max_threads = 4;
  device_index = 1;
}

abbrev three_pages : Source
three_pages = record { length = 3; shared = λ g. 100 }

abbrev root_shell : Caller
root_shell = record { owner_id = 0; sigset = 5; root_index = 2 }

abbrev system_program : Program
system_program = record {
  owner_id = 0;
  sigmask = 0;
  sigset = 5;
  workers = 1;
  maximum = 16;
  calendar = 0;
  root_index = 2;
  device_index = 1;
  pagetree_length = 134484480;
  instruction_pointer = 64;
  ds = 4;
  fs = 5;
  taken = 0;
}

exec-SystemIsRoot_example :
    (check_checksum small_header ≡ true)
    × (root_shell.owner_id ≡ 0)
    × (system_program.owner_id ≡ 0)
    × (system_program.sigset ≡ root_shell.sigset)
unfolding check_checksum exec
exec-SystemIsRoot_example =
    exec-SystemIsRoot true 1 0 6 0 3 root_shell machine three_pages small_header poor system_program
      refl refl
