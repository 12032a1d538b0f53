-- ===== src/Syscall/Polls.antt =====
-- kernlib/report_IO.cpp and 004_SYSPING.cpp.
--
-- The processes are those of the pool, each with its threads. `descs[poll->fdesc]` is looked up by
-- `findex_of` and `reqactions_of`, and the array of polls is not null. The index `w` of the loop
-- over the polls never moves, so the loop has fuel and only poll 0 is seen.
use best_kernel.Base.{
  ℕ, zero, suc, bit_and, bit_xor, ◌!=◌, if◌then◌else◌, ltb, Option, some, none, List, [], ◌∷◌,
}
use best_kernel.Tasks.{sigpolling}
use best_kernel.Syscall.{Kernel, sysret, descriptor, bad_slot}

pub record Poller : Type 0 where
  pub pollnum : ℕ
  pub fdesc : ℕ
  pub retaction : ℕ
  pub sigset : ℕ

pub record Polled : Type 0 where
  pub findex_of : ℕ → ℕ
  pub reqactions_of : ℕ → ℕ
  pub workers : List Poller

-- The body of the loop for poll 0.
unfoldable pub poll_once : (findex action : ℕ) → Polled → Poller → Poller
poll_once findex action p t =
    if p.findex_of t.fdesc != findex
    then t
    else if bit_and (p.reqactions_of t.fdesc) action != 0
    then t
    else record t { retaction = action; sigset = bit_xor t.sigset sigpolling }

-- `for (w = 0; w < thread->pollnum;)`
unfoldable pub poll_passes : (fuel findex action : ℕ) → Polled → Poller → Option Poller
unfolding poll_once
poll_passes zero findex action p t = none
poll_passes (suc fuel) findex action p t =
    let rest = poll_passes fuel findex action p (poll_once findex action p t) in
    if ltb 0 t.pollnum then rest else some t

unfoldable pub report_workers :
    (fuel findex action : ℕ) → Polled → List Poller → Option (List Poller)
unfolding poll_passes
report_workers fuel findex action p [] = some []
report_workers fuel findex action p (t ∷ rest) =
    let later = report_workers fuel findex action p rest in
    elim (poll_passes fuel findex action p t) [
      | none ↦ none
      | some t' ↦ elim later [ none ↦ none | some ts ↦ some (t' ∷ ts) ]
    ]

unfoldable pub report_io : (fuel findex action : ℕ) → List Polled → Option (List Polled)
unfolding report_workers
report_io fuel findex action [] = some []
report_io fuel findex action (p ∷ rest) =
    let later = report_io fuel findex action rest in
    elim (report_workers fuel findex action p p.workers) [
      | none ↦ none
      | some ts ↦ elim later [ none ↦ none | some ps ↦ some (record p { workers = ts } ∷ ps) ]
    ]

-- Empty where report_IO does not return. `ping` is pollable_actions::PING, which nothing declares.
unfoldable pub sys_ping :
    (fuel ping desc : ℕ) → Kernel → List Polled → Option (Kernel × List Polled)
unfolding report_io bad_slot
sys_ping fuel ping desc k processes =
    let reported = report_io fuel (descriptor k desc).findex ping processes in
    if bad_slot k desc
    then some (sysret 1 k, processes)
    else elim reported [ none ↦ none | some ps ↦ some (sysret 0 k, ps) ]
