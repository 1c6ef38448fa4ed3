-- ===== src/Common/Text/Entries/RoundTrip.antt =====
-- Reading a text of entries gives its entries to the reader one by one, in their order.
use mathlib.Core.Bool.{Bool, true, false}
use mathlib.Core.Path.{◌≡◌, refl, ap, ◌∙◌}
use mathlib.Core.List.{List, [], ◌∷◌, ◌++◌}
use mathlib.Core.Option.{Option, none, some}
use Prim.Native.Nat.{ℕ}
use native.Mathlib.Omega.{arith}
use dan.Common.Tests.{Bytes}
use dan.Common.Text.Decimal.{lacks, split_at-lacks}
use dan.Common.Text.Entries.{lines_of, read_lines, read_entries, entry_line, entries_text, when}

-- A key without `=` or newline, and a value without newline.
abbrev pub IsEntry : Bytes × Bytes → Type 0
IsEntry (key, value) =
    (lacks b'=' key ≡ true) × (lacks b'\n' key ≡ true) × (lacks b'\n' value ≡ true)

abbrev pub AllEntries : List (Bytes × Bytes) → Type 0
AllEntries [] = Unit
AllEntries (e ∷ es) = IsEntry e × AllEntries es

lines_of-line :
    (c : ℕ) (line : Bytes) → lacks b'\n' (c ∷ line) ≡ true → lines_of (c ∷ line) ≡ (c ∷ line) ∷ []
unfolding lines_of
lines_of-line c [] h = ground arith
lines_of-line c (b ∷ line) h = ground (arith, lines_of-line b line)

lines_of-newline :
    (line rest : Bytes)
    → lacks b'\n' line ≡ true
    → lines_of (line ++ b'\n' ∷ rest) ≡ line ∷ lines_of rest
unfolding lines_of
lines_of-newline [] rest h = refl
lines_of-newline (c ∷ line) rest h = ground (arith, lines_of-newline line rest)

lacks-append :
    (mark : ℕ) (xs ys : Bytes)
    → lacks mark xs ≡ true
    → lacks mark ys ≡ true
    → lacks mark (xs ++ ys) ≡ true
lacks-append mark [] ys h k = k
lacks-append mark (x ∷ xs) ys h k = ground (arith, lacks-append mark xs ys)

entry_line-lacks : (e : Bytes × Bytes) → IsEntry e → lacks b'\n' (entry_line e) ≡ true
entry_line-lacks (key, value) (a, b, c) =
    lacks-append b'\n' key (b'=' ∷ value) b (ground (arith, c))

-- The entries one by one; the reader may refuse.
unfoldable pub fold_entries {ℓ} :
    {S : Type ℓ} → (S → Bytes → Bytes → Option S) → S → List (Bytes × Bytes) → Option S
fold_entries step s [] = some s
fold_entries step s ((key, value) ∷ entries) = elim (step s key value) [
  | none ↦ none
  | some s' ↦ fold_entries step s' entries
]

map_lines : List (Bytes × Bytes) → List Bytes
map_lines [] = []
map_lines (e ∷ es) = entry_line e ∷ map_lines es

lines_of-one : (e : Bytes × Bytes) → IsEntry e → lines_of (entry_line e) ≡ entry_line e ∷ []
lines_of-one ([], value) i = lines_of-line b'=' value (entry_line-lacks ([], value) i)
lines_of-one (c ∷ key, value) i =
    lines_of-line c (key ++ b'=' ∷ value) (entry_line-lacks (c ∷ key, value) i)

lines_of-entries_text :
    (es : List (Bytes × Bytes)) → AllEntries es → lines_of (entries_text es) ≡ map_lines es
unfolding entries_text map_lines
lines_of-entries_text [] _ = unfold lines_of in refl
lines_of-entries_text (e ∷ []) (i, _) = lines_of-one e i
lines_of-entries_text (e ∷ f ∷ es) (i, is) =
    lines_of-newline (entry_line e) (entries_text (f ∷ es)) (entry_line-lacks e i)
    ∙ ap (λ l. entry_line e ∷ l) (lines_of-entries_text (f ∷ es) is)

read_lines-map_lines {ℓ} :
    {S : Type ℓ} (step : S → Bytes → Bytes → Option S) (s : S) (es : List (Bytes × Bytes))
    → AllEntries es
    → read_lines step s (map_lines es) ≡ fold_entries step s es
unfolding read_lines map_lines fold_entries
read_lines-map_lines step s [] _ = refl
read_lines-map_lines {S} step s ((key, value) ∷ es) (i, is) =
    rw (split_at-lacks b'=' key value i.0, read_lines)
      (go (step s key value) (λ s'. read_lines-map_lines step s' es is))
  where
    go :
        (o : Option S)
        → ((s' : S) → read_lines step s' (map_lines es) ≡ fold_entries step s' es)
        → ◌≡◌ {A = Option S}
            (elim o [ none ↦ none | some s' ↦ read_lines step s' (map_lines es) ])
            (elim o [ none ↦ none | some s' ↦ fold_entries step s' es ])
    go none ih = refl
    go (some s') ih = ih s'

pub read_entries-entries_text {ℓ} :
    {S : Type ℓ} (step : S → Bytes → Bytes → Option S) (s : S) (es : List (Bytes × Bytes))
    → AllEntries es
    → read_entries step s (entries_text es) ≡ fold_entries step s es
unfolding read_entries
read_entries-entries_text step s es i =
    ap (read_lines step s) (lines_of-entries_text es i) ∙ read_lines-map_lines step s es i

pub fold_entries-cons {ℓ} :
    {S : Type ℓ} (step : S → Bytes → Bytes → Option S) {s t : S} {key value : Bytes}
    (es : List (Bytes × Bytes))
    → step s key value ≡ some t
    → fold_entries step s ((key, value) ∷ es) ≡ fold_entries step t es
unfolding fold_entries
fold_entries-cons step es e = rw (e, fold_entries) refl

pub AllEntries-when :
    (test : Bool) (entry : Bytes × Bytes) (rest : List (Bytes × Bytes))
    → (test ≡ true → IsEntry entry)
    → AllEntries rest
    → AllEntries (when test entry rest)
AllEntries-when true entry rest h k = (h refl, k)
AllEntries-when false entry rest h k = k
