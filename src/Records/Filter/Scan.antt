-- ===== src/Records/Filter/Scan.antt =====
-- src/records/QueryFilterParser.ts, the three loops that look for something outside quotes and
-- parentheses: `splitTopLevel`, `findOperatorIndex` and `isFullyEnclosed`.
use nodestack.Prelude.{
  ℕ, zero, suc, ◌+◌, Bool, false, not, List, [], ◌∷◌, ◌++◌, Option, none, some, ◌&&◌, ◌||◌, ◌==◌,
  if◌then◌else◌, starts_with, is_blank, is_some,
}
use nodestack.Prelude.Int.{ℤ, pos, negsuc}

-- The characters before the index, the last one first.
abbrev pub Seen : Type 0
Seen = List ℕ

-- `isCharEscaped`: an odd number of backslashes stands before the index.
unfoldable pub is_char_escaped : Seen → Bool
is_char_escaped [] = false
is_char_escaped (c ∷ seen) = let rest = is_char_escaped seen in if c == 92 then not rest else false

abbrev pub increase : ℤ → ℤ
increase (pos n) = pos (suc n)
increase (negsuc zero) = pos 0
increase (negsuc (suc n)) = negsuc n

abbrev pub decrease : ℤ → ℤ
decrease (pos zero) = negsuc 0
decrease (pos (suc n)) = pos n
decrease (negsuc n) = negsuc (suc n)

abbrev pub is_zero : ℤ → Bool
is_zero (pos n) = n == 0
is_zero (negsuc n) = false

toggled : Option ℕ → ℕ → Option ℕ
toggled none c = some c
toggled (some k) c = if c == k then none else some k

-- The quote that is open after a character.
unfoldable pub quote_after : ℕ → Seen → Option ℕ → Option ℕ
unfolding toggled is_char_escaped
quote_after c seen q = if (c == 34 || c == 39) && not (is_char_escaped seen) then toggled q c else q

-- The variables of the loops: what they have passed, the open quote and the depth.
pub record Scan : Type 0 where
  pub seen : Seen
  pub quote : Option ℕ
  pub depth : ℤ

abbrev pub scan_start : Scan
scan_start = record { seen = []; quote = none; depth = pos 0 }

-- The updates that the three loops make for a character.
unfoldable pub scan_step : ℕ → Scan → Scan
unfolding quote_after
scan_step c s =
    let quote' = quote_after c s.seen s.quote in
    record {
      seen = c ∷ s.seen;
      quote = quote';
      depth =
          if is_some quote'
          then s.depth
          else if c == 40
          then increase s.depth
          else if c == 41
          then decrease s.depth
          else s.depth;
    }

-- Outside quotes, no parenthesis, and at depth 0: here a delimiter or an operator is looked for.
unfoldable pub is_top : ℕ → Scan → Bool
unfolding quote_after
is_top c s =
    not (is_some (quote_after c s.seen s.quote)) && not (c == 40 || c == 41) && is_zero s.depth

-- The loop of `splitTopLevel` for the delimiter that is the character `k` twice.
unfoldable pub split_run : ℕ → List ℕ → List (List ℕ) → List ℕ → Scan → List (List ℕ)
unfolding scan_step is_top
split_run k [] parts current s = if is_blank current then parts else parts ++ current ∷ []
split_run k (c ∷ []) parts current s = parts ++ (current ++ c ∷ []) ∷ []
split_run k (c ∷ e ∷ cs) parts current s =
    let two = split_run k cs (parts ++ current ∷ []) [] (record s { seen = e ∷ c ∷ s.seen }) in
    let one = split_run k (e ∷ cs) parts (current ++ c ∷ []) (scan_step c s) in
    if is_top c s && c == k && e == k then two else one

unfoldable pub split_top_level : ℕ → List ℕ → List (List ℕ)
unfolding split_run
split_top_level k str = split_run k str [] [] scan_start

pub data Operator : Type 0 where
  ne ge le eq gt lt not_like like : Operator

-- In the order in which they are tried.
abbrev pub operators : List Operator
operators = ne ∷ ge ∷ le ∷ eq ∷ gt ∷ lt ∷ not_like ∷ like ∷ []

abbrev pub operator_text : Operator → List ℕ
operator_text ne = b'!' ∷ b'=' ∷ []
operator_text ge = b'>' ∷ b'=' ∷ []
operator_text le = b'<' ∷ b'=' ∷ []
operator_text eq = b'=' ∷ []
operator_text gt = b'>' ∷ []
operator_text lt = b'<' ∷ []
operator_text not_like = b'!' ∷ b'~' ∷ []
operator_text like = b'~' ∷ []

-- The operator is the end of a longer one.
unfoldable pub ends_longer : Operator → Seen → Bool
ends_longer eq (c ∷ seen) = c == b'!' || c == b'<' || c == b'>'
ends_longer like (c ∷ seen) = c == b'!'
ends_longer op seen = false

unfoldable pub find_run : Operator → ℕ → List ℕ → Scan → Option ℕ
unfolding scan_step is_top ends_longer
find_run op i [] s = none
find_run op i (c ∷ cs) s =
    let rest = find_run op (i + 1) cs (scan_step c s) in
    if is_top c s && starts_with (c ∷ cs) (operator_text op) && not (ends_longer op s.seen)
    then some i
    else rest

-- `none` stands for -1.
unfoldable pub find_operator_index : List ℕ → Operator → Option ℕ
unfolding find_run
find_operator_index str op = find_run op 0 str scan_start

unfoldable pub enclosed_run : List ℕ → Scan → Bool
unfolding scan_step
enclosed_run [] s = is_zero s.depth
enclosed_run (c ∷ cs) s =
    let s' = scan_step c s in
    let rest = enclosed_run cs s' in
    if not (is_some s'.quote) && is_zero s'.depth && not (is_blank cs) then false else rest

unfoldable pub is_fully_enclosed : List ℕ → Bool
unfolding enclosed_run
is_fully_enclosed str = enclosed_run str scan_start
