-- ===== src/Boot/Names.antt =====
-- The name of the init system.
use best_kernel.Base.{ℕ, ◌==◌, ◌||◌, Bool}

abbrev pub ends : ℕ → Bool
ends c = c == 10 || c == 35

-- The offset behind the three numbers.
abbrev pub after_numbers : (atoi_special : ℕ → ℕ × ℕ) → ℕ
after_numbers atoi_special = (atoi_special (atoi_special (atoi_special 0).1).1).1
