-- ===== src/Filter/Arguments/Laws.antt =====
-- `split_argv` parts a command line: no argument is lost, copied twice or moved before another.
use libcap_utils.Prelude.{ℕ, ◌≡◌, false, List, [], ◌∷◌, All}
use libcap_utils.Filter.Arguments.{is_consumed}

-- The arguments of two lists, each list in its order, and nothing else.
pub data Interleaves : List (List ℕ) → List (List ℕ) → List (List ℕ) → Type 0 where
  none_left : Interleaves [] [] []
  keep :
      (arg : List ℕ) {kept taken args : List (List ℕ)}
      → Interleaves kept taken args
      → Interleaves (arg ∷ kept) taken (arg ∷ args)
  take :
      (arg : List ℕ) {kept taken args : List (List ℕ)}
      → Interleaves kept taken args
      → Interleaves kept (arg ∷ taken) (arg ∷ args)

abbrev pub Parts : List (List ℕ) → List (List ℕ) × List (List ℕ) → Type 0
Parts args (kept, taken) = Interleaves kept taken args × All (λ arg. is_consumed arg ≡ false) kept
