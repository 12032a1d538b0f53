-- ===== src/Tasks/Killing/Tests.antt =====
-- The clean-up of a process with two descriptors, one with mappings.
use best_kernel.Base.{◌+◌, ◌%◌, ◌^◌, ◌≡◌, refl, arith, some, none, List, [], ◌∷◌}
use best_kernel.Tasks.Killing.{Holding, Counts, close_all, extract_segment_statistics, pkill}
use best_kernel.Tasks.Killing.Drops.{holders, pkill_counts}

abbrev two_holdings : List Holding
two_holdings =
    record { taken = 1; findex = 7; maps = some (λ y. 1) }
    ∷ record { taken = 1; findex = 7; maps = none }
    ∷ []

abbrev some_counts : Counts
some_counts = record { listeners = λ f p. 4; openers = λ f. 3; log = [] }

-- With three mapped pages, page 0 loses three listeners and pages 1 and 2 none.
page_zero : (close_all (λ f. 3) 0 two_holdings some_counts).listeners 7 0 ≡ 1
unfolding close_all
page_zero = refl

page_one : (close_all (λ f. 3) 0 two_holdings some_counts).listeners 7 1 ≡ 4
unfolding close_all
page_one = refl

-- The length of a segment of one page has the whole first word in it.
whole_word : (extract_segment_statistics (2 ^ 47 + 1, 0)).1 ≡ 2 ^ 47 + 1
unfolding extract_segment_statistics
whole_word = refl

pkill_counts_example :
    (((pkill (λ v. v) (λ f. 3) (0, 0) (0, 0) two_holdings some_counts).openers 7
          + holders 7 two_holdings)
        % 2 ^ 32
      ≡ 3 % 2 ^ 32)
    × ((pkill (λ v. v) (λ f. 3) (0, 0) (0, 0) two_holdings some_counts).listeners 7 2 ≡ 4)
pkill_counts_example =
    pkill_counts (λ v. v) (λ f. 3) (0, 0) (0, 0) two_holdings some_counts 7 2 (omega arith)
