-- ===== src/Syscall/Threads.antt =====
-- SYS_THREAD with the routines of 022_SYSTHREAD.cpp: a clone of the calling thread, and its stack.
--
-- make_stack asks vmto_entry for the entry of its own `entry`, which is not set yet, and not of `ret`:
-- `found` is what comes back, counted in entries, and so are the steps of 8 that the code takes on it. What malloc returns for the h-th page is `pipes h`; a null
-- one starts BLOOD_LIBEL, which is counted. The clone's registers are those that the code sets.
-- Giving back the clone where it gets no stack is the flag `freed`.
pub mod Stacks
mod Tests
use best_kernel.Base.{
  ℕ, zero, suc, ◌+◌, ◌-◌, ◌*◌, ◌/◌, ◌%◌, ◌^◌, bit_or, ◌==◌, if◌then◌else◌, Bool, true, false, u32,
  u64, shl64,
}
use best_kernel.Paging.{Process, vmto_entry, memreq_template, smallpage, reserve, writeback}
use best_kernel.Syscall.{Kernel, sysret}
use best_kernel.Regions.{minus, entryto_vm, vmtree_fetch}

abbrev pub stack_template : ℕ
unfolding memreq_template
stack_template = memreq_template smallpage reserve writeback 0

-- The loop over `h`, and the guard page after it.
unfoldable pub lay_stack : (left h entry : ℕ) → (pipes : ℕ → ℕ) → (entries : ℕ → ℕ) → ℕ → ℕ
lay_stack zero h entry pipes entries = λ a. if a == entry then 0 else entries a
lay_stack (suc left) h entry pipes entries =
    lay_stack left (h + 1) (entry - 8) pipes
      (λ a. if a == entry then bit_or (shl64 (pipes h) 12) stack_template else entries a)

-- The pages that malloc did not give.
unfoldable pub libels : (left h : ℕ) → (pipes : ℕ → ℕ) → ℕ
libels zero h pipes = 0
libels (suc left) h pipes = (if pipes h == 0 then 1 else 0) + libels left (h + 1) pipes

pub record Clone : Type 0 where
  pub stack_pointer : ℕ
  pub ds : ℕ
  pub fs : ℕ
  pub gs : ℕ
  pub taken : ℕ

-- What the routines leave: the process, the clone, and how often BLOOD_LIBEL ran.
pub record Spawn : Type 0 where
  pub process : Process
  pub clone : Clone
  pub libelled : ℕ
  pub freed : Bool

unfoldable pub make_stack :
    (stacksize : ℕ) (signed : ℕ → Bool) (found : ℕ) (pipes : ℕ → ℕ) → Spawn → Spawn × ℕ
unfolding lay_stack libels entryto_vm
make_stack stacksize signed found pipes s =
    let (ret, p) = vmtree_fetch (stacksize + 1) smallpage signed s.process in
    let top = found + (stacksize + 1) * 8 in
    let q = vmto_entry found p in
    if ret == minus 1 then (record s { process = p }, 0) else (
      record s {
        process = record q { entries = lay_stack stacksize 0 top pipes q.entries };
        clone = record (s.clone) { stack_pointer = entryto_vm (8 * top) };
        libelled = s.libelled + libels stacksize 0 pipes;
      },
      ret,
    )

-- `newfag` is the number of the slot that the pool of threads gave, or none, `size` is
-- sizeof(Thread), and `segment` what the pool of the local descriptor table returns. SIGKILL is 0.
unfoldable pub thread :
    (stacksize : ℕ) (signed : ℕ → Bool) (found : ℕ) (pipes : ℕ → ℕ) (newfag size segment : ℕ)
    (calling : Clone)
    → Process
    → Spawn × ℕ
unfolding make_stack
thread stacksize signed found pipes newfag size segment calling p =
    let (s, term) =
      make_stack stacksize signed found pipes
        (record { process = p; clone = calling; libelled = 0; freed = false }) in
    let sigset : ℕ = if s.clone.gs == 0 then bit_or s.process.sigset 0 else s.process.sigset in
    if term == 0 then (record s { freed = true }, 0) else (
      record s {
        process = record (s.process) { sigset = sigset };
        clone = record (s.clone) { stack_pointer = term; ds = 4; fs = segment; taken = 0 };
      },
      newfag / size,
    )

-- `thread->sys_retval = thread(void);`, with what becomes of the tree and the clone left to `thread`.
unfoldable pub sys_thread :
    (stacksize : ℕ) (signed : ℕ → Bool) (found : ℕ) (pipes : ℕ → ℕ) (newfag size segment : ℕ)
    (calling : Clone)
    → Process
    → Kernel
    → Kernel
unfolding thread
sys_thread stacksize signed found pipes newfag size segment calling p k =
    sysret (thread stacksize signed found pipes newfag size segment calling p).1 k
