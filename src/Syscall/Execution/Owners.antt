-- ===== src/Syscall/Execution/Owners.antt =====
-- Whose programs exec starts.
use best_kernel.Base.{Bool, ℕ, ◌≡◌, arith, true, some}
use best_kernel.Syscall.Execution.{
  Header, check_checksum, Supply, Machine, Source, Program, Caller, exec,
}

-- Where exec starts a program of type SYSTEM, the file has the right checksum, the caller is root, and
-- the program is root's, with the signals of the caller.
pub exec-SystemIsRoot :
    (libel_ends : Bool) (system root process_index entry found : ℕ) (c : Caller) (m : Machine)
    (f : Source) (h : Header) (s : Supply) (p : Program)
    → (exec libel_ends system root process_index entry found c m f h s).program ≡ some p
    → h.program_type ≡ system
    → (check_checksum h ≡ true) × (c.owner_id ≡ root) × (p.owner_id ≡ root) × (p.sigset ≡ c.sigset)
unfolding exec
exec-SystemIsRoot libel_ends system root process_index entry found c m f h s p started e =
    ground (arith, started, e)
