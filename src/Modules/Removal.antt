-- ===== src/Modules/Removal.antt =====
-- When the removal of a driver ends, and what it gives back.
use best_kernel.Base.{
  ℕ, zero, suc, ◌≤◌, ◌+◌, ◌≡◌, refl, ap, ◌∙◌, arith, ◌==◌, if◌then◌else◌, Bool, true, false,
  Bool-cases, inl, inr, Option, some, none, List, [], ◌∷◌, ◌++◌,
}
use best_kernel.Modules.{
  Quirks, no_quirks, free_quirk, quirk, Drivers, no_drivers, free_driver, driver, Release,
  sleep_brothers, wake_brothers, release_file, release_driver, release_quirk, join, remove_drivers,
  remove_quirks, modrm, modrm_wrap,
}

-- Is every slot below taken?
unfoldable mutual
  pub quirks_full : Quirks → Bool
  quirks_full no_quirks = true
  quirks_full (free_quirk rest) = false
  quirks_full (quirk unborn solutions rest) =
      if drivers_full solutions then quirks_full rest else false

  pub drivers_full : Drivers → Bool
  drivers_full no_drivers = true
  drivers_full (free_driver rest) = false
  drivers_full (driver file link problems rest) =
      if quirks_full problems then drivers_full rest else false

-- How often does a file stand in a tree?
unfoldable mutual
  pub files_in_quirks : ℕ → Quirks → ℕ
  files_in_quirks x no_quirks = 0
  files_in_quirks x (free_quirk rest) = files_in_quirks x rest
  files_in_quirks x (quirk unborn solutions rest) =
      files_in_drivers x solutions + files_in_quirks x rest

  pub files_in_drivers : ℕ → Drivers → ℕ
  files_in_drivers x no_drivers = 0
  files_in_drivers x (free_driver rest) = files_in_drivers x rest
  files_in_drivers x (driver file link problems rest) =
      files_in_quirks x problems + (if file == x then 1 else 0) + files_in_drivers x rest

-- How often is a file given back?
abbrev pub released : ℕ → List Release → ℕ
released x [] = 0
released x (release_file f ∷ rest) = (if f == x then 1 else 0) + released x rest
released x (_ ∷ rest) = released x rest

-- Is a link other than null given back?
abbrev pub linked : List Release → Bool
linked [] = false
linked (release_driver zero ∷ rest) = linked rest
linked (release_driver (suc n) ∷ rest) = true
linked (_ ∷ rest) = linked rest

linked-append : (a b : List Release) → linked a ≡ false → linked b ≡ false → linked (a ++ b) ≡ false
linked-append [] b p q = q
linked-append (sleep_brothers ∷ a) b p q = linked-append a b p q
linked-append (wake_brothers ∷ a) b p q = linked-append a b p q
linked-append (release_file f ∷ a) b p q = linked-append a b p q
linked-append (release_driver zero ∷ a) b p q = linked-append a b p q
linked-append (release_driver (suc n) ∷ a) b p q = absurd (ground (arith, p))
linked-append (release_quirk f ∷ a) b p q = linked-append a b p q

released-append : (x : ℕ) (a b : List Release) → released x (a ++ b) ≡ released x a + released x b
released-append x [] b = omega arith
released-append x (release_file f ∷ a) b = omega (arith, released-append x a b)
released-append x (_ ∷ a) b = released-append x a b

-- The log of a loop that ends gives back a file as often as it stands in the tree, and no link.
abbrev pub Gives : (ℕ → ℕ) → Option (List Release) → Type 0
Gives count r =
    (log : List Release) × (r ≡ some log)
    × ((x : ℕ) → released x log ≡ count x)
    × (linked log ≡ false)

Gives-join :
    (f g : ℕ → ℕ) (r s : Option (List Release))
    → Gives f r
    → Gives g s
    → Gives (λ x. f x + g x) (join r s)
Gives-join f g r s (a, p, h, u) (b, q, k, v) = (
  a ++ b,
  rw (p, q) refl,
  λ x. omega (arith, released-append x a b, h x, k x),
  linked-append a b u v,
)

-- A log without trees below it.
Gives-log :
    (f : ℕ → ℕ) (log : List Release)
    → ((x : ℕ) → released x log ≡ f x)
    → linked log ≡ false
    → Gives f (some log)
Gives-log f log h u = (log, refl, h, u)

Gives-same :
    (f g : ℕ → ℕ) (r : Option (List Release)) → ((x : ℕ) → f x ≡ g x) → Gives f r → Gives g r
Gives-same f g r e (log, p, h, u) = (log, p, λ x. h x ∙ e x, u)

both : (a b : Bool) → (if a then b else false) ≡ true → (a ≡ true) × (b ≡ true)
both true b e = (refl, e)
both false b e = absurd (ground arith)

mutual
  unfolding quirks_full files_in_quirks remove_quirks

  quirks-Gives :
      (qs : Quirks) → quirks_full qs ≡ true → Gives (λ x. files_in_quirks x qs) (remove_quirks qs)
  quirks-Gives no_quirks e = Gives-log (λ x. 0) [] (λ x. refl) refl
  quirks-Gives (free_quirk rest) e = absurd (ground (arith, e))
  quirks-Gives (quirk unborn solutions rest) e =
      let parts = both (drivers_full solutions) (quirks_full rest) e in
      let above : List Release = release_quirk unborn ∷ [] in
      let first =
        Gives-join (λ x. files_in_drivers x solutions) (λ x. 0) (remove_drivers solutions)
          (some above) (drivers-Gives solutions parts.0)
          (Gives-log (λ x. 0) above (λ x. refl) refl) in
      Gives-same (λ x. files_in_drivers x solutions + 0 + files_in_quirks x rest)
        (λ x. files_in_drivers x solutions + files_in_quirks x rest)
        (join (join (remove_drivers solutions) (some above)) (remove_quirks rest))
        (λ x. omega arith)
        (Gives-join (λ x. files_in_drivers x solutions + 0) (λ x. files_in_quirks x rest)
          (join (remove_drivers solutions) (some above)) (remove_quirks rest) first
          (quirks-Gives rest parts.1))

  drivers-Gives :
      (ds : Drivers)
      → drivers_full ds ≡ true
      → Gives (λ x. files_in_drivers x ds) (remove_drivers ds)
  drivers-Gives no_drivers e = Gives-log (λ x. 0) [] (λ x. refl) refl
  drivers-Gives (free_driver rest) e = absurd (ground (arith, e))
  drivers-Gives (driver file link problems rest) e =
      let parts = both (quirks_full problems) (drivers_full rest) e in
      let above : List Release = release_file file ∷ release_driver 0 ∷ [] in
      let own : ℕ → ℕ = λ x. if file == x then 1 else 0 in
      Gives-join (λ x. files_in_quirks x problems + own x) (λ x. files_in_drivers x rest)
        (join (remove_quirks problems) (some above)) (remove_drivers rest)
        (Gives-join (λ x. files_in_quirks x problems) own (remove_quirks problems) (some above)
          (quirks-Gives problems parts.0) (Gives-log own above (λ x. omega arith) refl))
        (drivers-Gives rest parts.1)

-- Where every slot below a driver is taken and no file stands twice in the tree, the removal of the
-- driver ends and gives back the driver's own file and those of all drivers below it, once each, and
-- no other file. The links of the drivers are not given back: every one that it gives back is null.
pub modrm-Gives :
    (file link : ℕ) (problems : Quirks)
    → quirks_full problems ≡ true
    → ((x : ℕ) → files_in_quirks x problems + (if file == x then 1 else 0) ≤ 1)
    → (log : List Release) × (modrm file link problems ≡ some log)
      × ((x : ℕ) → released x log ≡ files_in_quirks x problems + (if file == x then 1 else 0))
      × (linked log ≡ false)
unfolding modrm
modrm-Gives file link problems e once =
    let above : List Release = release_file file ∷ release_driver 0 ∷ [] in
    let own : ℕ → ℕ = λ x. if file == x then 1 else 0 in
    Gives-join (λ x. files_in_quirks x problems) own (remove_quirks problems) (some above)
      (quirks-Gives problems e) (Gives-log own above (λ x. omega arith) refl)

join-none : (r : Option (List Release)) → join r none ≡ none
join-none (some a) = refl
join-none none = refl

mutual
  unfolding quirks_full remove_quirks

  quirks_hang : (qs : Quirks) → quirks_full qs ≡ false → remove_quirks qs ≡ none
  quirks_hang no_quirks e = absurd (ground (arith, e))
  quirks_hang (free_quirk rest) e = refl
  quirks_hang (quirk unborn solutions rest) e = elim (Bool-cases (drivers_full solutions)) [
    | inl t ↦
        ap (join (join (remove_drivers solutions) (some (release_quirk unborn ∷ []))))
          (quirks_hang rest (ground (arith, e, t)))
        ∙ join-none (join (remove_drivers solutions) (some (release_quirk unborn ∷ [])))
    | inr t ↦ rw (drivers_hang solutions t) refl
  ]

  drivers_hang : (ds : Drivers) → drivers_full ds ≡ false → remove_drivers ds ≡ none
  drivers_hang no_drivers e = absurd (ground (arith, e))
  drivers_hang (free_driver rest) e = refl
  drivers_hang (driver file link problems rest) e =
      let above : List Release = release_file file ∷ release_driver 0 ∷ [] in
      elim (Bool-cases (quirks_full problems)) [
        | inl t ↦
            ap (join (join (remove_quirks problems) (some above)))
              (drivers_hang rest (ground (arith, e, t)))
            ∙ join-none (join (remove_quirks problems) (some above))
        | inr t ↦ rw (quirks_hang problems t) refl
      ]

-- A free slot anywhere below a driver is enough for its removal not to end, with the other processors asleep.
modrm_wrap_hangs :
    (file link : ℕ) (problems : Quirks)
    → quirks_full problems ≡ false
    → modrm_wrap file link problems ≡ none
unfolding modrm_wrap
modrm_wrap_hangs file link problems e = rw (quirks_hang problems e) refl
