-- ===== src/Vfs/Transfer.antt =====
-- Reading, writing and loading.
use best_kernel.Base.{
  ℕ, ◌+◌, ◌≤◌, ◌<◌, ◌≡◌, refl, ◌≢◌, arith, ◌==◌, if◌then◌else◌, List, [], ◌∷◌, ◌++◌, length, leb,
  ◌&&◌, Bool, true, false, get_or-set_self,
}
use best_kernel.Vfs.{
  File, FileType, directory, storage, device, connection, Request, disk_read, disk_write, read,
  write, transfer, load_page,
}

abbrev pub is_content : FileType → Bool
is_content directory = false
is_content device = false
is_content storage = true
is_content connection = true

transfer_code :
    (t : FileType) (request : Request) (log : List Request)
    → ((transfer t request log).1 == 0) ≡ is_content t
unfolding transfer
transfer_code directory request log = refl
transfer_code _ request log = refl

transfer_log :
    (t : FileType) (request : Request) (log : List Request)
    → (transfer t request log).0
      ≡ (if (transfer t request log).1 == 0 then log ++ request ∷ [] else log)
unfolding transfer
transfer_log directory request log = refl
transfer_log _ request log = refl

-- Writing at an offset is possible exactly where reading is: both return 0 or neither does. Where
-- they do, each adds its one request to the log, at the file's position plus the offset; where they
-- do not, nothing is asked of the disk. They succeed exactly at an offset that is not past the end,
-- in a file that is neither a directory nor a device.
transfers_agree :
    (file : File) (buf amount offset : ℕ) (log : List Request)
    → ((read file buf amount offset log).1 == 0)
        ≡ (leb offset file.meta.length && is_content file.meta.type)
      × ((write file buf amount offset log).1 == 0)
        ≡ (leb offset file.meta.length && is_content file.meta.type)
      × (read file buf amount offset log).0 ≡ (
          if (read file buf amount offset log).1 == 0
          then log ++ disk_read file.meta.partition (file.meta.relpos + offset) buf amount ∷ []
          else log)
      × (write file buf amount offset log).0 ≡ (
          if (write file buf amount offset log).1 == 0
          then log ++ disk_write file.meta.partition (file.meta.relpos + offset) buf amount ∷ []
          else log)
unfolding read write
transfers_agree file buf amount offset log =
    let r = disk_read file.meta.partition (file.meta.relpos + offset) buf amount in
    let w = disk_write file.meta.partition (file.meta.relpos + offset) buf amount in
    (
      ground (arith, transfer_code file.meta.type r log),
      ground (arith, transfer_code file.meta.type w log),
      ground (arith, transfer_log file.meta.type r log),
      ground (arith, transfer_log file.meta.type w log),
    )

-- A page that load_page has loaded once stays: for a page of the file with a slot, and memory left,
-- a second call returns the same address, asks the disk for nothing and leaves the file as it is.
pub load_page_twice :
    (file : File) (page fresh later : ℕ) (log : List Request)
    → page ≤ file.mem.length
    → page < length (file.mem.pool)
    → fresh ≢ 0
    → load_page (load_page file page fresh log).0 page later (load_page file page fresh log).1
      ≡ load_page file page fresh log
unfolding load_page
load_page_twice file page fresh later log le room ne =
    ground (arith, get_or-set_self file.mem.pool page fresh 0)
