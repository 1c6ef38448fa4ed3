-- ===== src/Common/Text/Entries.antt =====
-- The texts of `key=value` lines, and the loop that reads them: lease.hpp, lines 70 to 90, and the
-- same loop in formation.hpp and route.hpp.
pub mod RoundTrip
pub mod Keeps
use mathlib.Core.Bool.{Bool, true, false}
use mathlib.Core.List.{List, [], ◌∷◌, ◌++◌}
use mathlib.Core.Option.{Option, none, some}
use Prim.Native.Nat.{ℕ}
use dan.Common.Tests.{◌==◌, if◌then◌else◌, Bytes}
use dan.Common.Text.{split_at}

-- One byte in front of the first line.
abbrev pub onto_first : ℕ → List Bytes → List Bytes
onto_first c [] = (c ∷ []) ∷ []
onto_first c (line ∷ lines) = (c ∷ line) ∷ lines

-- The lines that `while (!text.empty())` goes through: a newline ends a line, and nothing follows the
-- last one.
unfoldable pub lines_of : Bytes → List Bytes
lines_of [] = []
lines_of (c ∷ text) =
    let rest = lines_of text in if c == b'\n' then [] ∷ rest else onto_first c rest

-- The loop over the lines: `step` is the chain of tests on the key, which may refuse the text.
unfoldable pub read_lines {ℓ} :
    {S : Type ℓ} → (S → Bytes → Bytes → Option S) → S → List Bytes → Option S
read_lines step s [] = some s
read_lines step s (line ∷ lines) = elim (split_at b'=' line) [
  | none ↦ none
  | some (key, value) ↦ elim (step s key value) [ none ↦ none | some s' ↦ read_lines step s' lines ]
]

unfoldable pub read_entries {ℓ} :
    {S : Type ℓ} → (S → Bytes → Bytes → Option S) → S → Bytes → Option S
unfolding lines_of read_lines
read_entries step s text = read_lines step s (lines_of text)

-- `key=value`
abbrev pub entry_line : Bytes × Bytes → Bytes
entry_line (key, value) = key ++ b'=' ∷ value

-- The entries with a newline between them.
unfoldable pub entries_text : List (Bytes × Bytes) → Bytes
entries_text [] = []
entries_text (entry ∷ []) = entry_line entry
entries_text (entry ∷ next ∷ entries) = entry_line entry ++ b'\n' ∷ entries_text (next ∷ entries)

-- The check behind the loop.
abbrev pub keep_if {ℓ} : {S : Type ℓ} → (S → Bool) → Option S → Option S
keep_if test none = none
keep_if test (some s) = if test s then some s else none

-- `if (test) text += ...`
abbrev pub when {ℓ} : {A : Type ℓ} → Bool → A → List A → List A
when test entry rest = if test then entry ∷ rest else rest
