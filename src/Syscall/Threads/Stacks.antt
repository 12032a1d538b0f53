-- ===== src/Syscall/Threads/Stacks.antt =====
-- Which page entries a stack gets, and what SYS_THREAD returns.
use best_kernel.Base.{
  ℕ, zero, suc, ◌+◌, ◌-◌, ◌*◌, ◌%◌, ◌≤◌, ◌≡◌, ◌≢◌, refl, ◌∙◌, arith, bit_or, ◌==◌, if◌then◌else◌,
  Bool, true, false, leb, shl64,
}
use native.Mathlib.Decide.{ℕ_discrete}
use best_kernel.Paging.{Process, vmto_entry, smallpage}
use best_kernel.Regions.{vmtree_fetch}
use best_kernel.Regions.Fetch.{vmtree_fetch_small}
use best_kernel.Syscall.Threads.{stack_template, lay_stack, Clone, Spawn, make_stack, thread}

last_page :
    (left h base k : ℕ) (pipes entries : ℕ → ℕ)
    → (if k == 0
        then 0
        else if leb k left
        then bit_or (shl64 (pipes (h + suc left - k)) 12) stack_template
        else if base + 8 * k == base + 8 * suc left
        then bit_or (shl64 (pipes h) 12) stack_template
        else entries (base + 8 * k))
      ≡ (if k == 0
          then 0
          else if leb k (suc left)
          then bit_or (shl64 (pipes (h + suc left - k)) 12) stack_template
          else entries (base + 8 * k))
last_page left h base k pipes entries = elim (ℕ_discrete k (suc left)) [
  | yes e ↦ let top : h + suc left - k ≡ h = omega arith in rw top (ground arith)
  | no n ↦ ground (arith, n)
]

-- Entry 8 * k above the lowest, which is the guard's.
lay_stack_entries :
    (left h base k : ℕ) (pipes entries : ℕ → ℕ)
    → lay_stack left h (base + 8 * left) pipes entries (base + 8 * k) ≡ (
        if k == 0
        then 0
        else if leb k left
        then bit_or (shl64 (pipes (h + left - k)) 12) stack_template
        else entries (base + 8 * k))
unfolding lay_stack
lay_stack_entries zero h base k pipes entries = ground arith
lay_stack_entries (suc left) h base k pipes entries =
    let step : base + 8 * suc left - 8 ≡ base + 8 * left = omega arith in
    let same : h + 1 + left - k ≡ h + suc left - k = omega arith in
    let page = bit_or (shl64 (pipes h) 12) stack_template in
    let next : ℕ → ℕ = λ a. if a == base + 8 * suc left then page else entries a in
    rw step (
      lay_stack_entries left (h + 1) base k pipes next
      ∙ rw same (last_page left h base k pipes entries))

lay_stack_first :
    (n base k : ℕ) (pipes entries : ℕ → ℕ)
    → k ≤ n
    → lay_stack n 0 (base + 8 * n) pipes entries (base + 8 * k)
      ≡ (if k == 0 then 0 else bit_or (shl64 (pipes (n - k)) 12) stack_template)
lay_stack_first n base k pipes entries l =
    let start : 0 + n - k ≡ n - k = omega arith in
    let within : leb k n ≡ true = ground arith in
    lay_stack_entries n 0 base k pipes entries ∙ rw (start, within) refl

lay_stack_between :
    (left h base a : ℕ) (pipes entries : ℕ → ℕ)
    → a % 8 ≢ base % 8
    → lay_stack left h (base + 8 * left) pipes entries a ≡ entries a
unfolding lay_stack
lay_stack_between zero h base a pipes entries n = ground (arith, n)
lay_stack_between (suc left) h base a pipes entries n =
    let step : base + 8 * suc left - 8 ≡ base + 8 * left = omega arith in
    rw step (
      ground (
        arith,
        n,
        lay_stack_between left (h + 1) base a pipes
            (λ x.
              if x == base + 8 * suc left
              then bit_or (shl64 (pipes h) 12) stack_template
              else entries x)
            n,
      ))

module _ (stacksize : ℕ) (signed : ℕ → Bool) (found : ℕ) (pipes : ℕ → ℕ) where
  no_region :
      (p : Process)
      → vmtree_fetch (stacksize + 1) smallpage signed p ≡ (0, record p { calendar = 0 })
  no_region p = vmtree_fetch_small (stacksize + 1) signed p (omega arith)

  pub make_stack_entries :
      (s : Spawn)
      → ((k : ℕ)
          → k ≤ stacksize
          → (make_stack stacksize signed found pipes s).0.process.entries (found + 8 + 8 * k)
            ≡ (if k == 0 then 0 else bit_or (shl64 (pipes (stacksize - k)) 12) stack_template))
        × ((a : ℕ)
            → a % 8 ≢ found % 8
            → (make_stack stacksize signed found pipes s).0.process.entries a
              ≡ (vmto_entry found s.process).entries a)
        × ((make_stack stacksize signed found pipes s).1 ≡ 0)
  unfolding make_stack vmto_entry
  make_stack_entries s =
      let none_found = no_region s.process in
      let kept = vmto_entry found (record (s.process) { calendar = 0 }) in
      let top : found + (stacksize + 1) * 8 ≡ found + 8 + 8 * stacksize = omega arith in
      (
        λ k l. rw (none_found, top) (lay_stack_first stacksize (found + 8) k pipes kept.entries l),
        λ a m.
            rw (none_found, top)
              (lay_stack_between stacksize 0 (found + 8) a pipes kept.entries (omega arith)),
        rw none_found refl,
      )

  -- So no thread is ever made: whatever slot and segment the clone gets, `thread` gives it
  -- back and returns 0.
  thread_fails :
      (newfag size segment : ℕ) (calling : Clone) (p : Process)
      → ((thread stacksize signed found pipes newfag size segment calling p).1 ≡ 0)
        × ((thread stacksize signed found pipes newfag size segment calling p).0.freed ≡ true)
  unfolding thread
  thread_fails newfag size segment calling p =
      let start : Spawn = record { process = p; clone = calling; libelled = 0; freed = false } in
      let e : (make_stack stacksize signed found pipes start).1 ≡ 0 =
        (make_stack_entries start).2 in
      (rw e refl, rw e refl)
