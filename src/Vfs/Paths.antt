-- ===== src/Vfs/Paths.antt =====
-- recurse_directories and open of runtime/vfs/core.h: looking up a path below a directory.
--
-- A path and a name are the bytes from a pointer on, up to the end of their arrays. The inner call is
-- read as one on `&path[o+1]`, with the pointer `index` passed on; its result is dropped by the
-- source. `id` is a file's place in
-- `descriptions`, the difference of the two pointers; what is stored is that number divided by `size`,
-- sizeof(File), once more.
use best_kernel.Base.{ℕ, ◌+◌, ◌/◌, ◌==◌, if◌then◌else◌, List, ◌∷◌, Option, some, none, Bool}

-- The children of a directory, in the order of its slots.
pub data Children : Type 0 where
  end : Children
  child :
      (present : Bool) (id : ℕ) (name : List ℕ) (is_directory : Bool) (below rest : Children)
      → Children

-- What is behind the pointers `out`, as a place in the path, and `index`.
pub record Found : Type 0 where
  pub out : ℕ
  pub index : ℕ

abbrev pub slash : ℕ
slash = 47

-- The loop over the bytes: the code that is returned, if one is. `descend` is the inner call.
unfoldable pub compare_name :
    (List ℕ → ℕ → Found → Found) → Bool → ℕ → List ℕ → List ℕ → ℕ → Found → Option ℕ × Found
compare_name descend is_directory id (c ∷ path) (x ∷ name) o w =
    let deeper = compare_name descend is_directory id path name (o + 1) (descend path (o + 1) w) in
    let further = compare_name descend is_directory id path name (o + 1) w in
    if c == x
    then if c == 0
      then (some 0, record { out = o; index = id })
      else if c == slash
      then (if is_directory then deeper else (some 1, w))
      else further
    else (none, w)
compare_name descend is_directory id _ _ o w = (none, w)

unfoldable pub continue_lookup : Option ℕ × Found → (Found → ℕ × Found) → ℕ × Found
continue_lookup (some code, w) rest = (code, w)
continue_lookup (none, w) rest = rest w

unfoldable pub recurse_directories : (size : ℕ) → List ℕ → ℕ → Children → Found → ℕ × Found
unfolding compare_name continue_lookup
recurse_directories size path o end w = (2, w)
recurse_directories size path o (child present id name is_directory below rest) w =
    if present
    then continue_lookup
        (compare_name (λ path' o' w'. (recurse_directories size path' o' below w').1) is_directory
          (id / size) path name o w)
        (λ w'. recurse_directories size path o rest w')
    else recurse_directories size path o rest w

-- `open(path,dir_index,strlen_ret,index_ret)`: the file returned, by its place in `descriptions`, or
-- null, and what is stored through the pointers. `w` is what was there before the call.
unfoldable pub open_file : (size : ℕ) → Bool → List ℕ → Children → Found → Option ℕ × Found
unfolding recurse_directories
open_file size dir_taken path dir w =
    if dir_taken
    then (some (recurse_directories size path 0 dir w).0, (recurse_directories size path 0 dir w).1)
    else (none, w)
