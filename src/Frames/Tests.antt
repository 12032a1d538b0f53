-- ===== src/Frames/Tests.antt =====
-- Runs of the allocator of physical pages.
use best_kernel.Base.{◌-◌, ◌*◌, ◌/◌, ◌^◌, ◌≡◌, refl, arith, if◌then◌else◌, ◌==◌}
use best_kernel.Paging.{smallpage}
use best_kernel.Frames.{Frames, set_bits, manipulate_phys, offset_of}
use best_kernel.Frames.Digits.{mark_of}
use best_kernel.Frames.Marks.{manipulate_phys_lem}

abbrev empty_frames : Frames
empty_frames = record { table = λ i. 0; memlen = 8 * 10000; calendar = 0 }

abbrev taken_frames : Frames
taken_frames = record empty_frames { table = λ i. 2 ^ 32 - 1 }

-- The offset counts the digits above the bit, not below.
offset_of_first : offset_of 32 1 ≡ 32
unfolding offset_of
offset_of_first = refl

manipulate_phys_lem_example :
    (manipulate_phys 70000 3 smallpage set_bits empty_frames).table 2
    ≡ (if 2 == 70000 / 8 / 4096 then mark_of set_bits * (2 ^ 32 - 1) else 0)
manipulate_phys_lem_example =
    manipulate_phys_lem 70000 3 smallpage set_bits empty_frames 2 (omega arith) (omega arith)
