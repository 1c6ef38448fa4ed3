-- ===== src/Common/Text/Entries/Keeps.antt =====
-- What every step of the loop over the lines keeps, the loop keeps.
use mathlib.Core.Path.{◌≡◌, subst}
use mathlib.Core.List.{List, [], ◌∷◌}
use mathlib.Core.Option.{Option, none, some}
use native.Mathlib.Omega.{arith}
use mathlib.Core.Path.{refl}
use dan.Common.Tests.{Bytes}
use dan.Common.Text.{split_at}
use dan.Common.Text.Entries.{lines_of, read_lines, read_entries}

pub same_some : {A : Type 0} {a b : A} → some a ≡ some b → a ≡ b
same_some h = cc

module _ {S : Type 0} (Inv : S → Type 0) (step : S → Bytes → Bytes → Option S)
    (step_keeps : (s s' : S) (key value : Bytes)
      → Inv s
      → step s key value ≡ some s'
      → Inv s') where
  line-keeps :
      (s s' : S) (line : Bytes) (lines : List Bytes)
      → ((s1 : S) → Inv s1 → read_lines step s1 lines ≡ some s' → Inv s')
      → Inv s
      → read_lines step s (line ∷ lines) ≡ some s'
      → Inv s'
  unfolding read_lines
  line-keeps s s' line lines next i h = entry (split_at b'=' line) refl
    where
      stepped :
          (key value : Bytes) (t : Option S)
          → step s key value ≡ t
          → split_at b'=' line ≡ some (key, value)
          → Inv s'
      stepped key value none e f = absurd (ground (arith, rw (f, e, read_lines) at h))
      stepped key value (some s1) e f =
          next s1 (step_keeps s s1 key value i e) (rw (f, e, read_lines) at h)

      entry : (found : Option (Bytes × Bytes)) → split_at b'=' line ≡ found → Inv s'
      entry none f = absurd (ground (arith, rw (f, read_lines) at h))
      entry (some (key, value)) f = stepped key value (step s key value) refl f

  read_lines-keeps :
      (s s' : S) (lines : List Bytes) → Inv s → read_lines step s lines ≡ some s' → Inv s'
  unfolding read_lines
  read_lines-keeps s s' [] i h = subst Inv (same_some h) i
  read_lines-keeps s s' (line ∷ lines) i h =
      line-keeps s s' line lines (λ s1. read_lines-keeps s1 s' lines) i h

  pub read_entries-keeps :
      (s s' : S) (text : Bytes) → Inv s → read_entries step s text ≡ some s' → Inv s'
  unfolding read_entries
  read_entries-keeps s s' text i h = read_lines-keeps s s' (lines_of text) i h
