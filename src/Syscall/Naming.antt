-- ===== src/Syscall/Naming.antt =====
-- The calls that name files: 000_SYSOPEN.cpp, 003_SYSCLOSE.cpp, 010_SYSMOUNT.cpp and
-- 012_SYSCHROOT.cpp.
--
-- `eval` is what vfs->open returns, `newdesc` and `newfile` are the slots that the pools give, empty
-- for null, and `name` is the string behind the part of the path that was found. O_CREAT is the
-- first name of its enumeration, so the number 0; O_DIRECTORY, which nothing declares, is an
-- argument. `disk` and `diskpos` of a file are the `partition` and `relpos` of its meta. What is
-- written through a null descriptor is left out; BLOOD_LIBEL, which comes before it, is counted.
use best_kernel.Base.{
  ℕ, zero, suc, ◌+◌, ◌-◌, ◌^◌, bit_and, ◌==◌, ◌!=◌, if◌then◌else◌, Bool, true, false, Option, some,
  none, List, [], set, u32,
}
use best_kernel.Memory.{Memory}
use best_kernel.Pool.{clear}
use best_kernel.Tasks.{Descriptor}
use best_kernel.Vfs.{File, FileType, directory, storage}
use best_kernel.Syscall.{
  Kernel, Context, minus, sysret, conditional_sysret, no_descriptor, descriptor, file_of,
  bad_descriptor,
}

-- enum open_flags
abbrev pub o_creat : ℕ
o_creat = 0

-- NO_MATCHING_FILENAME
abbrev pub no_matching_filename : ℕ
no_matching_filename = 2

-- A write to the new descriptor.
unfoldable pub at_descriptor : Option ℕ → (Descriptor → Descriptor) → Kernel → Kernel
at_descriptor none change k = k
at_descriptor (some desc) change k = record k {
  process = record (k.process) {
    descs = record (k.process.descs) {
      pool = set k.process.descs.pool desc (change (descriptor k desc));
    };
  };
}

-- The file that SYSOPEN makes in directory `dir`.
unfoldable pub new_file : FileType → ℕ → List ℕ → File → File
new_file type mode name dir = record {
  meta = record {
    name = name;
    type = type;
    mode = mode;
    partition = dir.meta.partition;
    relpos = 0;
    length = 0;
  };
  parent = 0;
  double_link = 0;
  children = 0;
  mem = record { pool = []; length = 0; mapped_pagetype = 0 };
}

-- `newdesc->flags = flags; SYSRET;`
unfoldable pub keep_flags : Option ℕ → ℕ → Kernel → Kernel
unfolding at_descriptor
keep_flags newdesc flags k = at_descriptor newdesc (λ d. record d { flags = flags }) k

module _ (c : Context) where
  -- The branch for O_CREAT.
  unfoldable pub create_file :
      (o_directory dir_descriptor flags : ℕ) (newdesc newfile : Option ℕ) (name : List ℕ)
      → Kernel
      → Kernel
  unfolding new_file keep_flags
  create_file o_directory dir_descriptor flags newdesc none name k = sysret (minus 2) k
  create_file o_directory dir_descriptor flags newdesc (some i) name k =
      let type = if bit_and flags o_directory != 0 then directory else storage in
      let mode = if k.process.owner_id == c.root then 3 else 0 in
      let file = new_file type mode name (file_of k dir_descriptor) in
      keep_flags newdesc flags
        (sysret 0 (record k { files = λ j. if j == i then file else k.files j }))

  -- The number of times BLOOD_LIBEL is called, and the kernel.
  unfoldable pub sysopen :
      (o_directory dir_descriptor flags eval : ℕ) (newdesc newfile : Option ℕ) (name : List ℕ)
      → Kernel
      → ℕ × Kernel
  unfolding bad_descriptor at_descriptor create_file keep_flags
  sysopen o_directory dir_descriptor flags eval newdesc newfile name k =
      let libels : ℕ = elim newdesc [ none ↦ 1 | some i ↦ 0 ] in
      let k' = at_descriptor newdesc (λ d. record d { findex = eval }) k in
      if bad_descriptor k dir_descriptor then (0, sysret (minus 1) k) else (
        libels,
        if eval == no_matching_filename
            then if bit_and flags o_creat != 0
              then create_file o_directory dir_descriptor flags newdesc newfile name k'
              else keep_flags newdesc flags (sysret 1 k')
            else keep_flags newdesc flags k',
      )

  -- `vfs->mount(findex,partition)` returns `mount findex partition`; `findex` is what open stores.
  unfoldable pub sysmount : (mount : ℕ → ℕ → ℕ) (findex partition : ℕ) → Kernel → Kernel
  sysmount mount findex partition k =
      conditional_sysret (k.process.owner_id != c.root) 1 k (sysret (mount findex partition) k)

-- `process->descs->pool_free(&process->descs->pool[desc],1)`
unfoldable pub free_descriptor : ℕ → Kernel → Kernel
unfolding clear
free_descriptor desc k = record k {
  process = record (k.process) {
    descs = record (k.process.descs) {
      ckarray = clear (1 - desc) desc k.process.descs.ckarray;
      count = u32 (k.process.descs.count + 2 ^ 32 - 1);
      pool = set k.process.descs.pool desc no_descriptor;
    };
  };
}

-- The kernel, and the listeners of the files. The index of the file is read from the freed slot.
unfoldable pub sysclose : ℕ → Kernel → (ℕ → ℕ) → Kernel × (ℕ → ℕ)
unfolding bad_descriptor free_descriptor
sysclose desc k listeners =
    let k' = free_descriptor desc k in
    let findex = (descriptor k' desc).findex in
    if bad_descriptor k desc
    then (sysret (minus 1) k, listeners)
    else (sysret 0 k', λ i. if i == findex then u32 (listeners i + 2 ^ 32 - 1) else listeners i)

-- The loop over the path: does it end before byte 4095 is passed?
unfoldable pub path_ends : ℕ → ℕ → ℕ → Memory → Bool
path_ends zero g path m = false
path_ends (suc left) g path m =
    let rest = path_ends left (g + 1) path m in
    if m (path + g) == 0 then true else if g == 4095 then false else rest

-- `opened` is what vfs->open returns for the path; `newroot` is dropped.
unfoldable pub sys_chroot : Context → (opened : ℕ → ℕ) (absolute_path : ℕ) → Kernel → Kernel
unfolding path_ends
sys_chroot c opened absolute_path k =
    let true_path = c.user_memory absolute_path in
    conditional_sysret (true_path == 0) 1 k (
      if path_ends 4096 0 true_path k.memory
      then conditional_sysret (opened true_path != 0) 3 k (sysret 0 k)
      else sysret 2 k)
