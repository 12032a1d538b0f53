-- ===== src/Vfs/Writeback/Pages.antt =====
-- What the cycle asks of the disk for a file, and when it syncs the file.
use best_kernel.Base.{
  ℕ, suc, zero, ◌+◌, ◌^◌, ◌≤◌, ◌<◌, ◌≡◌, refl, sym, ap, ◌∙◌, append-nil, append_assoc, arith, ◌==◌,
  ◌!=◌, ◌&&◌, if◌then◌else◌, Bool, List, [], ◌∷◌, ◌++◌, get_or, u32,
}
use best_kernel.Vfs.Writeback.{
  Cached, Backward, write_page, free_page, sync_file, Cycle, give_page, give_pages, write_back,
  visit, writeback_from, writeback_cycle,
}

-- The pages that have a listener, of those from `h` on.
unfoldable pub heard : (left h : ℕ) → List ℕ → ℕ
heard zero h listeners = 0
heard (suc left) h listeners =
    (if get_or listeners h 0 == 0 then 0 else 1) + heard left (h + 1) listeners

heard-le : (left h : ℕ) (listeners : List ℕ) → heard left h listeners ≤ left
unfolding heard
heard-le zero h listeners = omega arith
heard-le (suc left) h listeners = ground (arith, heard-le left (h + 1) listeners)

give_pages-heard :
    (left i h closedyet : ℕ) (file : Cached) (s : Cycle)
    → closedyet + left < 2 ^ 32
    → (give_pages left i h closedyet file s).1 ≡ closedyet + heard left h file.listeners
unfolding give_pages heard
give_pages-heard zero i h closedyet file s b = omega arith
give_pages-heard (suc left) i h closedyet file s b = ground (
  arith,
  give_pages-heard left i (h + 1) closedyet file (give_page i h file s),
  give_pages-heard left i (h + 1) (u32 (closedyet + 1)) file s,
)

-- Every page has a listener.
abbrev pub all_heard : Cached → Bool
all_heard file = heard file.pages_count 0 file.listeners == file.pages_count

-- The files that a log syncs, in order.
unfoldable pub syncs : List Backward → List ℕ
syncs [] = []
syncs (write_page disk position buffer amount ∷ log) = syncs log
syncs (free_page physical pagetype ∷ log) = syncs log
syncs (sync_file i ∷ log) = i ∷ syncs log

syncs-append : (a b : List Backward) → syncs (a ++ b) ≡ syncs a ++ syncs b
unfolding syncs
syncs-append [] b = refl
syncs-append (write_page d p f n ∷ a) b = syncs-append a b
syncs-append (free_page p t ∷ a) b = syncs-append a b
syncs-append (sync_file i ∷ a) b = ap (λ l. i ∷ l) (syncs-append a b)

-- What the cycle should sync by the code's test: the files in use whose sync is pending and all of
-- whose pages have a listener.
unfoldable pub heard_files : (i : ℕ) → List (ℕ × Cached) → List ℕ
heard_files i [] = []
heard_files i ((taken, file) ∷ rest) =
    (if taken != 0 && (all_heard file && file.pending_sync != 0) then i ∷ [] else [])
    ++ heard_files (i + 1) rest

give_page-syncs :
    (i h : ℕ) (file : Cached) (s : Cycle) → syncs (give_page i h file s).log ≡ syncs s.log
unfolding give_page syncs
give_page-syncs i h file s = syncs-append s.log _ ∙ append-nil (syncs s.log)

give_pages-syncs :
    (left i h closedyet : ℕ) (file : Cached) (s : Cycle)
    → syncs (give_pages left i h closedyet file s).0.log ≡ syncs s.log
unfolding give_pages
give_pages-syncs zero i h closedyet file s = refl
give_pages-syncs (suc left) i h closedyet file s = ground (
  arith,
  give_pages-syncs left i (h + 1) closedyet file (give_page i h file s),
  give_pages-syncs left i (h + 1) (u32 (closedyet + 1)) file s,
  give_page-syncs i h file s,
)

write_back-syncs :
    (i : ℕ) (file : Cached) (s : Cycle)
    → file.pages_count < 2 ^ 32
    → syncs (write_back i file s).log
      ≡ syncs s.log ++ (if all_heard file && file.pending_sync != 0 then i ∷ [] else [])
unfolding write_back syncs
write_back-syncs i file s b =
    let s' = (give_pages file.pages_count i 0 0 file s).0 in
    ground (
      arith,
      give_pages-heard file.pages_count i 0 0 file s,
      give_pages-syncs file.pages_count i 0 0 file s,
      syncs-append s'.log (sync_file i ∷ []),
      append-nil (syncs s.log),
    )

visit-syncs :
    (taken i : ℕ) (file : Cached) (s : Cycle)
    → file.pages_count < 2 ^ 32
    → syncs (visit taken i file s).log
      ≡ syncs s.log
        ++ (if taken != 0 && (all_heard file && file.pending_sync != 0) then i ∷ [] else [])
unfolding visit
visit-syncs taken i file s b = ground (arith, write_back-syncs i file s b, append-nil (syncs s.log))

abbrev pub Counted : List (ℕ × Cached) → Type 0
Counted [] = Unit {0}
Counted ((taken, file) ∷ rest) = (file.pages_count < 2 ^ 32) × Counted rest

writeback_from-syncs :
    (i : ℕ) (slots : List (ℕ × Cached)) (s : Cycle)
    → Counted slots
    → syncs (writeback_from i slots s).log ≡ syncs s.log ++ heard_files i slots
unfolding writeback_from heard_files
writeback_from-syncs i [] s c = sym (append-nil (syncs s.log))
writeback_from-syncs i ((taken, file) ∷ rest) s (b, c) =
    writeback_from-syncs (i + 1) rest (visit taken i file s) c
    ∙ ap (λ l. l ++ heard_files (i + 1) rest) (visit-syncs taken i file s b)
    ∙ append_assoc (syncs s.log) _ _

-- The test for a sync is the wrong way round: the cycle syncs, in order, exactly the files in use
-- with a sync pending all of whose pages have a listener, and no other file, for files of less than
-- 2 ^ 32 pages. A file with a page that nobody listens to is not among them.
pub writeback_cycle-syncs :
    (slots : List (ℕ × Cached)) (s : Cycle)
    → Counted slots
    → syncs (writeback_cycle slots s).log ≡ syncs s.log ++ heard_files 0 slots
unfolding writeback_cycle
writeback_cycle-syncs slots s c = writeback_from-syncs 0 slots s c
