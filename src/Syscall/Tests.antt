-- ===== src/Syscall/Tests.antt =====
-- A process of user 5 with one open descriptor, of a file that only root may write.
use best_kernel.Base.{◌+◌, ◌≡◌, refl, arith, [], ◌∷◌, inr, false}
use best_kernel.Tasks.{Registers, application}
use best_kernel.Vfs.{File, storage}
use best_kernel.Syscall.{Kernel, Context, bad_descriptor, forbidden}
use best_kernel.Syscall.Control.{Victim}
use best_kernel.Syscall.Guards.{perform, removes, Refused, perform-Refused}

abbrev at_start : Registers
at_start = record {
  accumulator = 0;
  counter = 0;
  rdx = 0;
  rbx = 0;
  stack_pointer = 0;
  string_dest = 0;
  string_source = 0;
  frame_pointer = 0;
  eight = 0;
  nine = 0;
  ten = 0;
  eleven = 0;
  twelve = 0;
  thirteen = 0;
  fourteen = 0;
  fifteen = 0;
  flags = 0;
  instruction_override = [];
  instruction_pointer = 64;
  fs = 0;
  ds = 0;
}

abbrev pub guarded : File
guarded = record {
  meta = record {
    name = 108 ∷ [];
    type = storage;
    mode = 2;
    partition = 1;
    relpos = 512;
    length = 9000;
  };
  parent = 0;
  double_link = 0;
  children = 0;
  mem = record { pool = []; length = 0; mapped_pagetype = 3 };
}

abbrev pub user_five : Kernel
user_five = record {
  thread = record {
    state = at_start;
    type = application;
    sigmask = 0;
    sigset = 0;
    sighandlers = [];
    taken = 255;
    sys_retval = 0;
    poll = 0;
    target_micros = 0;
  };
  process = record {
    owner_id = 5;
    sigmask = 0;
    sigset = 4;
    pagetree = 0;
    descs = record {
      length = 1;
      count = 1;
      ckarray = 1 ∷ [];
      pool = record { findex = 7; flags = 0; file_offset = 100 } ∷ [];
    };
    used_memory = 12;
  };
  files = λ f. guarded;
  memory = λ a. 0;
  log = [];
}

abbrev pub shifted : Context
shifted = record { root = 0; user_memory = λ vm. vm + 4096 }

perform-Refused_example : Refused user_five (perform shifted removes 0 user_five)
perform-Refused_example = perform-Refused shifted removes 0 user_five (inr (ground arith, refl))

pub descriptor_good : bad_descriptor user_five 0 ≡ false
unfolding bad_descriptor
descriptor_good = refl

reading_allowed : forbidden shifted user_five 0 1 ≡ false
unfolding forbidden
reading_allowed = refl

abbrev stranger : Victim
stranger = record { owner_id = 6; sigset = 0 }
