-- ===== src/Disks/Partitions.antt =====
-- Where load_partition_table puts the partitions.
use best_kernel.Base.{
  ℕ, zero, suc, ◌+◌, ◌≤◌, ◌<◌, ◌≡◌, ◌≢◌, refl, sym, ap, ◌∙◌, arith, ◌==◌, if◌then◌else◌,
}
use best_kernel.Pool.{Hash, alloc}
use best_kernel.Pool.Alloc.{alloc_twice}
use best_kernel.Disks.{Partition, copy_partitions, load_partition_table}

twice :
    (a slot : ℕ) (p q r : Partition)
    → (if a == slot then p else (if a == slot then q else r)) ≡ (if a == slot then p else r)
twice a slot p q r = ground arith

module _ (tryn : ℕ) (found : ℕ → Partition) where
  copy_partitions_step :
      (left t : ℕ) (h : Hash) (cells : ℕ → Partition)
      → (found t).signature ≢ 0
      → copy_partitions (suc left) t tryn found h cells
        ≡ copy_partitions left
            (t + 1)
            tryn
            found
            (alloc 1 tryn h).0
            (λ a. if a == (alloc 1 tryn h).1 then found t else cells a)
  unfolding copy_partitions
  copy_partitions_step left t h cells n = ground (arith, n)

  copy_partitions_stop :
      (left t : ℕ) (h : Hash) (cells : ℕ → Partition)
      → (found t).signature ≡ 0
      → copy_partitions left t tryn found h cells ≡ (h, cells)
  unfolding copy_partitions
  copy_partitions_stop zero t h cells e = refl
  copy_partitions_stop (suc left) t h cells e = ground arith

  -- `n + 1` partitions from `t` on, the last of them at `u`, of which each goes to the same slot.
  copy_partitions_last :
      (n left t u slot a : ℕ) (h : Hash) (cells : ℕ → Partition)
      → n < left
      → t + n ≡ u
      → (alloc 1 tryn h).1 ≡ slot
      → slot ≢ 0
      → ((j : ℕ) → j ≤ u → (found j).signature ≢ 0)
      → (found (u + 1)).signature ≡ 0
      → (copy_partitions left t tryn found h cells).1 a ≡ (if a == slot then found u else cells a)
  copy_partitions_last n zero t u slot a h cells b at e ne full last = elim b [ ]
  copy_partitions_last zero (suc left) t u slot a h cells b at e ne full last =
      let here : t ≡ u = omega arith in
      let stop : (found (t + 1)).signature ≡ 0 = rw here last in
      ap (λ r. r.1 a)
        (copy_partitions_step left t h cells (full t (omega arith))
          ∙ copy_partitions_stop left (t + 1) (alloc 1 tryn h).0
              (λ x. if x == (alloc 1 tryn h).1 then found t else cells x) stop)
      ∙ rw (e, here) refl
  copy_partitions_last (suc n) (suc left) t u slot a h cells b at e ne full last =
      let again : (alloc 1 tryn (alloc 1 tryn h).0).1 ≡ slot =
        alloc_twice 1 tryn tryn h (λ z. ne (sym e ∙ z)) ∙ e in
      ap (λ r. r.1 a) (copy_partitions_step left t h cells (full t (omega arith)))
      ∙ copy_partitions_last n left (t + 1) u slot a (alloc 1 tryn h).0
          (λ x. if x == (alloc 1 tryn h).1 then found t else cells x) (omega arith) (omega arith)
          again ne full last
      ∙ rw e (twice a slot (found u) (found t) (cells a))

-- Of the partitions of a table only the last is kept: where `u + 1` of them, fewer than fit, come
-- before a null signature, and the pool has a free slot, all go to the first slot that it hands out, and no
-- other place changes.
load_partition_table_last :
    (identify : ℕ) (load : ℕ → ℕ → Partition) (tryn u : ℕ) (h : Hash) (cells : ℕ → Partition)
    (a : ℕ)
    → u < 52428
    → (alloc 1 tryn h).1 ≢ 0
    → ((j : ℕ) → j ≤ u → (load identify j).signature ≢ 0)
    → (load identify (u + 1)).signature ≡ 0
    → (load_partition_table identify load tryn h cells).1 a
      ≡ (if a == (alloc 1 tryn h).1 then load identify u else cells a)
unfolding load_partition_table
load_partition_table_last identify load tryn u h cells a b ne full last =
    copy_partitions_last tryn (load identify) u 52428 0 u (alloc 1 tryn h).1 a h cells b
      (omega arith) refl ne full last
