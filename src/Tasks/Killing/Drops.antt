-- ===== src/Tasks/Killing/Drops.antt =====
-- What PKILL takes off the counts of the files.
use best_kernel.Base.{
  ℕ, suc, ◌+◌, ◌%◌, ◌^◌, ◌≡◌, refl, ap, ◌∙◌, arith, ◌==◌, ◌!=◌, ◌&&◌, if◌then◌else◌, Option, some,
  none, List, [], ◌∷◌, ◌++◌, length, ◌≤◌,
}
use best_kernel.Tasks.Killing.{
  Holding, Counts, free_tree, drop_maps, close_holding, close_all, pkill,
}

-- The descriptors in use that stand for the file.
unfoldable pub holders : ℕ → List Holding → ℕ
holders f [] = 0
holders f (h ∷ hs) = (if h.taken != 0 && (f == h.findex) then 1 else 0) + holders f hs

drop_maps-openers :
    (length i g : ℕ) (maps : Option (ℕ → ℕ)) (s : Counts)
    → (drop_maps length i g maps s).openers ≡ s.openers
unfolding drop_maps
drop_maps-openers length i g none s = refl
drop_maps-openers length i g (some b) s = refl

close_holding-openers :
    (lengths : ℕ → ℕ) (i f : ℕ) (h : Holding) (s : Counts)
    → ((close_holding lengths i h s).openers f + (if h.taken != 0 && (f == h.findex) then 1 else 0))
        % 2 ^ 32
      ≡ s.openers f % 2 ^ 32
unfolding close_holding
close_holding-openers lengths i f h s =
    ground (arith, ap (λ g. g f) (drop_maps-openers (lengths h.findex) i h.findex h.maps s))

close_all-openers :
    (lengths : ℕ → ℕ) (i f : ℕ) (hs : List Holding) (s : Counts)
    → ((close_all lengths i hs s).openers f + holders f hs) % 2 ^ 32 ≡ s.openers f % 2 ^ 32
unfolding close_all holders
close_all-openers lengths i f [] s = ap (λ n. n % 2 ^ 32) (omega arith)
close_all-openers lengths i f (h ∷ hs) s = omega (
  arith,
  close_all-openers lengths (i + 1) f hs (close_holding lengths i h s),
  close_holding-openers lengths i f h s,
)

drop_maps-listeners :
    (length i g f p : ℕ) (maps : Option (ℕ → ℕ)) (s : Counts)
    → suc i ≤ p
    → (drop_maps length i g maps s).listeners f p ≡ s.listeners f p
unfolding drop_maps
drop_maps-listeners length i g f p none s l = refl
drop_maps-listeners length i g f p (some b) s l = ground arith

close_holding-listeners :
    (lengths : ℕ → ℕ) (i f p : ℕ) (h : Holding) (s : Counts)
    → suc i ≤ p
    → (close_holding lengths i h s).listeners f p ≡ s.listeners f p
unfolding close_holding
close_holding-listeners lengths i f p h s l =
    ground (arith, drop_maps-listeners (lengths h.findex) i h.findex f p h.maps s)

close_all-listeners :
    (lengths : ℕ → ℕ) (i f p : ℕ) (hs : List Holding) (s : Counts)
    → i + length hs ≤ p
    → (close_all lengths i hs s).listeners f p ≡ s.listeners f p
unfolding close_all
close_all-listeners lengths i f p [] s l = refl
close_all-listeners lengths i f p (h ∷ hs) s l =
    close_all-listeners lengths (i + 1) f p hs (close_holding lengths i h s) (omega arith)
    ∙ close_holding-listeners lengths i f p h s (omega arith)

-- PKILL takes as many openers off each file as the process has descriptors of it, as 32 digits. But
-- it takes no listener off a page of any file from the page whose number is that of the process'
-- descriptors on, whatever the process has mapped.
pub pkill_counts :
    (vmto_phys lengths : ℕ → ℕ) (heap table : ℕ × ℕ) (hs : List Holding) (s : Counts) (f p : ℕ)
    → length hs ≤ p
    → (((pkill vmto_phys lengths heap table hs s).openers f + holders f hs) % 2 ^ 32
        ≡ s.openers f % 2 ^ 32)
      × ((pkill vmto_phys lengths heap table hs s).listeners f p ≡ s.listeners f p)
unfolding pkill
pkill_counts vmto_phys lengths heap table hs s f p l = (
  close_all-openers lengths 0 f hs (record s { log = s.log ++ (free_tree ∷ []) }),
  close_all-listeners lengths 0 f p hs (record s { log = s.log ++ (free_tree ∷ []) }) (omega arith),
)
