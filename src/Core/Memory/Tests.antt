-- ===== src/Core/Memory/Tests.antt =====
-- The theorems about the associative memory at three patterns, with fixed-point scores.
use cautreo.Base.{filter, ℕ, ◌≡◌, refl, true, some, List, [], ◌∷◌, min, ltb, arith}
use cautreo.Base.Fixed.{fixed, fixed-IsOrdered}
use cautreo.Core.Memory.{
  MemoryPattern, Memory, memory_recall, memory_retrieve_verified, patterns_at, pattern_scores,
  lowest,
}
use cautreo.Core.Memory.Recall.{Picks, Unique, memory_recall-Picks}
use cautreo.Core.Memory.Verified.{memory_retrieve_verified-filter}

abbrev pattern : ℕ → ℕ → MemoryPattern ℕ
pattern x confidence = record {
  input = x ∷ 1010 ∷ [];
  output = 1000 ∷ 1000 ∷ [];
  weight = 1010;
  confidence = confidence;
  dim = 2;
}

abbrev three : Memory ℕ
three = record {
  dim = 2;
  episodic = record { patterns = []; capacity = 256 };
  pattern = record {
    patterns = pattern 1010 1001 ∷ pattern 1030 1005 ∷ pattern 1020 1009 ∷ [];
    capacity = 256;
  };
  rule = record { patterns = []; capacity = 128 };
  counterexample = record { patterns = []; capacity = 128 };
}

abbrev query : List ℕ
query = 1010 ∷ 1010 ∷ []

low : ltb (lowest fixed) 1000 ≡ true
unfolding lowest
low = refl

memory_recall-Picks_example :
    (is : List ℕ) × (memory_recall fixed (λ x. x) three (some query) 2
      ≡ patterns_at fixed three.pattern.patterns is)
    × Picks fixed (min 2 3) (pattern_scores fixed (λ x. x) query three.pattern.patterns) is
    × Unique fixed is
memory_recall-Picks_example =
    memory_recall-Picks fixed fixed-IsOrdered (λ x. x) three query 2 low refl
      (λ e. absurd (omega arith))

memory_retrieve_verified-filter_example :
    memory_retrieve_verified fixed (λ x. x) three (some query) 2
    ≡ filter (λ c. fixed.le 1003 c.confidence) (memory_recall fixed (λ x. x) three (some query) 2)
memory_retrieve_verified-filter_example =
    memory_retrieve_verified-filter fixed (λ x. x) three (some query) 2
