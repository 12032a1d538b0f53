-- ===== src/Pool/Alloc.antt =====
-- Which slots Hash::alloc hands out.
use best_kernel.Base.{
  ℕ, zero, suc, ◌+◌, ◌-◌, ◌*◌, ◌≤◌, ◌<◌, ◌≡◌, refl, ◌≢◌, List, some, arith, ◌==◌, if◌then◌else◌,
  get_or, Bool-cases, inl, inr, Option-cases, ◌%◌, ◌^◌,
}
use best_kernel.Pool.{Hash, scan, finish_alloc, alloc}

-- Slots `from` up to but not `to` are free.
abbrev pub Free : List ℕ → ℕ → ℕ → Type 0
Free ck from to = (j : ℕ) → from ≤ j → j < to → get_or ck j 0 ≡ 0

scan_finds :
    (ck : List ℕ) (reqlen left i g r : ℕ)
    → g ≤ i
    → Free ck (i - g) i
    → scan ck reqlen left i g ≡ some r
    → (r < i + left) × (reqlen ≤ r + 1) × Free ck (r + 1 - reqlen) (r + 1)
unfolding scan
scan_finds ck reqlen zero i g r le f e = cc
scan_finds ck reqlen (suc left) i g r le f e = elim (Bool-cases (run == reqlen)) [
  | inl hit ↦
      let at : i ≡ r = ground arith in
      (ground arith, ground (arith, run-le), λ j p q. run-Free j (ground arith) (ground arith))
  | inr miss ↦
      let later = scan_finds ck reqlen left (i + 1) run r run-le run-Free (rw miss at e) in
      (omega (arith, later.0), later.1, later.2)
]
  where
    run : ℕ
    run = if get_or ck i 0 == 0 then g + 1 else 0

    run-le : run ≤ i + 1
    run-le = ground arith

    run-Free : Free ck (i + 1 - run) (i + 1)
    run-Free j p q = ground (arith, f j)

-- A run of `reqlen` free slots from slot `s` is found at the latest at its own end: the scan gives
-- up no candidate, and stops at the first run that is long enough.
scan_reaches :
    (ck : List ℕ) (reqlen left i g s : ℕ)
    → i ≤ g + s
    → g < reqlen
    → s + reqlen ≤ i + left
    → Free ck s (s + reqlen)
    → (r : ℕ) × (scan ck reqlen left i g ≡ some r) × (r < s + reqlen)
unfolding scan
scan_reaches ck reqlen zero i g s at short room f = absurd (omega arith)
scan_reaches ck reqlen (suc left) i g s at short room f = elim (Bool-cases (run == reqlen)) [
  | inl hit ↦ (i, rw hit, ground arith)
  | inr miss ↦ rw miss (
      scan_reaches ck reqlen left (i + 1) run s (ground (arith, f i)) (ground arith) (omega arith)
        f)
]
  where
    run : ℕ
    run = if get_or ck i 0 == 0 then g + 1 else 0

-- If a non-null address comes back from `alloc(reqlen)`, it is the pool's
-- address plus 8 times the number of a slot below `length`, that slot and the `reqlen - 1` slots
-- under it all have a zero check byte, and `count` is the only field that has changed: it has grown
-- by `reqlen`, modulo 2 ^ 32.
pub alloc_finds :
    (reqlen tryn : ℕ) (h : Hash)
    → (alloc reqlen tryn h).1 ≢ 0
    → (i : ℕ) × ((alloc reqlen tryn h).1 ≡ h.pool + 8 * i)
      × (i < h.length)
      × (reqlen ≤ i + 1)
      × Free h.ckarray (i + 1 - reqlen) (i + 1)
      × ((alloc reqlen tryn h).0 ≡ record h { count = (h.count + reqlen) % 2 ^ 32 })
unfolding alloc finish_alloc
alloc_finds reqlen tryn h ne = elim (Option-cases (scan h.ckarray reqlen h.length 0 0)) [
  | inl miss ↦ absurd (ne (rw miss))
  | inr (i, e) ↦
      let found =
        scan_finds h.ckarray reqlen h.length 0 0 i (omega arith) (λ j p q. absurd (omega arith))
          e in
      (i, rw e, omega (arith, found.0), found.1, found.2, rw e)
]

-- If slots `s` up to `s + reqlen` are free and exist, `alloc(reqlen)` with
-- `reqlen` not 0 does return an address, of a slot before `s + reqlen`, without asking for growth.
pub alloc_succeeds :
    (reqlen tryn s : ℕ) (h : Hash)
    → 0 < reqlen
    → s + reqlen ≤ h.length
    → Free h.ckarray s (s + reqlen)
    → (i : ℕ) × ((alloc reqlen tryn h).1 ≡ h.pool + 8 * i)
      × (i < s + reqlen)
      × ((alloc reqlen tryn h).0.pool ≡ h.pool)
      × ((alloc reqlen tryn h).0.length ≡ h.length)
unfolding alloc finish_alloc
alloc_succeeds reqlen tryn s h pos room f =
    let (i, e, lt) =
      scan_reaches h.ckarray reqlen h.length 0 0 s (omega arith) pos (omega arith) f in
    (i, rw e, lt, rw e, rw e)

-- `alloc` leaves the check bytes as they are, so a second `alloc` of the same size hands out the
-- same slots again, whenever the first one found some.
pub alloc_twice :
    (reqlen tryn later : ℕ) (h : Hash)
    → (alloc reqlen tryn h).1 ≢ 0
    → (alloc reqlen later (alloc reqlen tryn h).0).1 ≡ (alloc reqlen tryn h).1
unfolding alloc finish_alloc
alloc_twice reqlen tryn later h ne = elim (Option-cases (scan h.ckarray reqlen h.length 0 0)) [
  | inl miss ↦ absurd (ne (rw miss))
  | inr (i, e) ↦ rw e (rw e refl)
]
