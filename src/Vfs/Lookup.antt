-- ===== src/Vfs/Lookup.antt =====
-- What a lookup finds.
use best_kernel.Base.{
  ℕ, zero, suc, ◌+◌, ◌/◌, ◌≡◌, ◌≢◌, ◌<◌, refl, arith, ◌==◌, if◌then◌else◌, List, [], ◌∷◌, Option,
  some, none, Bool, true, false, ◌∙◌, ap, sym, Bool-cases, inl, inr, ◌⊎◌, get_or,
}
use best_kernel.Vfs.Paths.{
  Children, end, child, Found, slash, compare_name, continue_lookup, recurse_directories, open_file,
}

-- No byte of the name is a slash.
abbrev pub IsPlain : List ℕ → Type 0
IsPlain [] = Unit {0}
IsPlain (x ∷ name) = (x ≢ slash) × IsPlain name

-- The names of the children, not of what is below them, have no slash.
abbrev pub PlainNames : Children → Type 0
PlainNames end = Unit {0}
PlainNames (child present id name is_directory below rest) = IsPlain name × PlainNames rest

abbrev pub one_more : Option ℕ → Option ℕ
one_more none = none
one_more (some n) = some (suc n)

-- The bytes up to the first zero, which both have, are the same; the number of them.
abbrev pub same_string : List ℕ → List ℕ → Option ℕ
same_string (c ∷ path) (x ∷ name) =
    if c == x then (if c == 0 then some 0 else one_more (same_string path name)) else none
same_string _ _ = none

-- What is stored for a match of `n` bytes at `o`, or left as it was.
abbrev pub store_match : ℕ → ℕ → Found → Option ℕ → Option ℕ × Found
store_match o id w none = (none, w)
store_match o id w (some n) = (some 0, record { out = o + n; index = id })

abbrev pub or_else : Option ℕ × Found → ℕ × Found → ℕ × Found
or_else (none, w) other = other
or_else (some code, w) other = (code, w)

-- The first child, of those that are present, with exactly this name; 2 if there is none.
abbrev pub first_named : (size : ℕ) → List ℕ → ℕ → Children → Found → ℕ × Found
first_named size path o end w = (2, w)
first_named size path o (child present id name is_directory below rest) w =
    if present
    then or_else (store_match o (id / size) w (same_string path name))
        (first_named size path o rest w)
    else first_named size path o rest w

store_one_more :
    (o id : ℕ) (w : Found) (m : Option ℕ)
    → store_match (o + 1) id w m ≡ store_match o id w (one_more m)
store_one_more o id w none = refl
store_one_more o id w (some n) =
    let e : o + 1 + n ≡ o + suc n = omega arith in
    ap (λ (t : ℕ). (some 0, record { out = t; index = id })) e

compare_name_lem :
    (descend : List ℕ → ℕ → Found → Found) (is_directory : Bool) (id : ℕ) (path name : List ℕ)
    (o : ℕ) (w : Found)
    → IsPlain name
    → compare_name descend is_directory id path name o w
      ≡ store_match o id w (same_string path name)
unfolding compare_name
compare_name_lem descend is_directory id [] name o w plain = refl
compare_name_lem descend is_directory id (c ∷ path) [] o w plain = refl
compare_name_lem descend is_directory id (c ∷ path) (x ∷ name) o w (h, plain) =
    let step =
      compare_name_lem descend is_directory id path name (o + 1) w plain
      ∙ store_one_more o id w (same_string path name) in
    let start : o + 0 ≡ o = omega arith in
    elim (Bool-cases (c == x)) [
      | inl same ↦ elim (Bool-cases (c == 0)) [
        | inl last ↦
            rw (same, last) (ap (λ (t : ℕ). (some 0, record { out = t; index = id })) (sym start))
        | inr more ↦ let other : (c == slash) ≡ false = ground arith in rw (same, more, other) step
      ]
      | inr differ ↦ rw differ refl
    ]

continue_store :
    (o id : ℕ) (w : Found) (m : Option ℕ) (rest : Found → ℕ × Found) (other : ℕ × Found)
    → rest w ≡ other
    → continue_lookup (store_match o id w m) rest ≡ or_else (store_match o id w m) other
unfolding continue_lookup
continue_store o id w none rest other e = e
continue_store o id w (some n) rest other e = refl

-- Below a directory whose files' names have no slash, the lookup finds exactly the first present
-- child whose whole name is the whole path. It stores the path's length and the child's place in
-- `descriptions` divided by sizeof(File), which is not its index. It never goes
-- into a directory, and where no child has that name it returns 2 and stores nothing.
pub recurse_directories_flat :
    (size : ℕ) (path : List ℕ) (o : ℕ) (dir : Children) (w : Found)
    → PlainNames dir
    → recurse_directories size path o dir w ≡ first_named size path o dir w
unfolding recurse_directories
recurse_directories_flat size path o end w plain = refl
recurse_directories_flat size path o (child false id name is_directory below rest) w (h, plain) =
    recurse_directories_flat size path o rest w plain
recurse_directories_flat size path o (child true id name is_directory below rest) w (h, plain) =
    rw
      (compare_name_lem (λ path' o' w'. (recurse_directories size path' o' below w').1) is_directory
        (id / size) path name o w h)
      (continue_store o (id / size) w (same_string path name)
        (λ w'. recurse_directories size path o rest w') (first_named size path o rest w)
        (recurse_directories_flat size path o rest w plain))

no_slash :
    (path name : List ℕ) (n : ℕ)
    → IsPlain name
    → get_or path n 0 ≡ slash
    → ((j : ℕ) → j < n → get_or path j 0 ≢ 0)
    → same_string path name ≡ none
no_slash [] name n plain at before = refl
no_slash (c ∷ path) [] n plain at before = refl
no_slash (c ∷ path) (x ∷ name) zero (h, plain) at before =
    let differ : (c == x) ≡ false = ground arith in rw differ refl
no_slash (c ∷ path) (x ∷ name) (suc n) (h, plain) at before =
    let rest = no_slash path name n plain at (λ j p. before (suc j) (omega arith)) in
    let more : (c == 0) ≡ false = ground (arith, before 0 (omega arith)) in
    elim (Bool-cases (c == x)) [
      | inl same ↦ rw (same, more, rest) refl
      | inr differ ↦ rw differ refl
    ]

first_named_none :
    (size : ℕ) (path : List ℕ) (n o : ℕ) (dir : Children) (w : Found)
    → PlainNames dir
    → get_or path n 0 ≡ slash
    → ((j : ℕ) → j < n → get_or path j 0 ≢ 0)
    → first_named size path o dir w ≡ (2, w)
first_named_none size path n o end w plain at before = refl
first_named_none size path n o (child false id name is_directory below rest) w (h, plain) at
      before =
    first_named_none size path n o rest w plain at before
first_named_none size path n o (child true id name is_directory below rest) w (h, plain) at before =
    rw (no_slash path name n h at before) (first_named_none size path n o rest w plain at before)

-- A path with a slash is never found below such a directory: if a byte of it, with no zero before,
-- is a slash, the lookup returns 2 and stores nothing.
recurse_directories_nested :
    (size : ℕ) (path : List ℕ) (n o : ℕ) (dir : Children) (w : Found)
    → PlainNames dir
    → get_or path n 0 ≡ slash
    → ((j : ℕ) → j < n → get_or path j 0 ≢ 0)
    → recurse_directories size path o dir w ≡ (2, w)
recurse_directories_nested size path n o dir w plain at before =
    recurse_directories_flat size path o dir w plain
    ∙ first_named_none size path n o dir w plain at before

or_else_code :
    (o id : ℕ) (w : Found) (m : Option ℕ) (other : ℕ × Found)
    → (other.0 ≡ 0) ⊎ (other.0 ≡ 2)
    → ((or_else (store_match o id w m) other).0 ≡ 0)
      ⊎ ((or_else (store_match o id w m) other).0 ≡ 2)
or_else_code o id w none other h = h
or_else_code o id w (some n) other h = inl refl

first_named_code :
    (size : ℕ) (path : List ℕ) (o : ℕ) (dir : Children) (w : Found)
    → ((first_named size path o dir w).0 ≡ 0) ⊎ ((first_named size path o dir w).0 ≡ 2)
first_named_code size path o end w = inr refl
first_named_code size path o (child false id name is_directory below rest) w =
    first_named_code size path o rest w
first_named_code size path o (child true id name is_directory below rest) w =
    or_else_code o (id / size) w (same_string path name) (first_named size path o rest w)
      (first_named_code size path o rest w)

-- open returns a file by the code of the lookup instead of by its index: below a directory whose
-- files' names have no slash it is always file 0 or file 2, never the one that `index` names, unless
-- that is number 0 or 2.
open_file_code :
    (size : ℕ) (path : List ℕ) (dir : Children) (w : Found)
    → PlainNames dir
    → ((open_file size true path dir w).0 ≡ some 0) ⊎ ((open_file size true path dir w).0 ≡ some 2)
unfolding open_file
open_file_code size path dir w plain =
    rw (recurse_directories_flat size path 0 dir w plain)
      (elim (first_named_code size path 0 dir w) [
        | inl e ↦ inl (ap some e)
        | inr e ↦ inr (ap some e)
      ])
