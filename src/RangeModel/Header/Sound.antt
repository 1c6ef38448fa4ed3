-- ===== src/RangeModel/Header/Sound.antt =====
-- range_model.cpp: what holds of a header that parse_index accepts.
use mathlib.Core.Path.{subst}
use dan.Common.{
  ℕ, ◌-◌, ◌<◌, ◌≡◌, refl, Bool, true, false, not, ◌||◌, List, [], Bytes, leb, length, arith,
}
use dan.RangeModel.{Tensor, Index}
use dan.RangeModel.Header.{
  ParseResult, complete, incomplete, invalid, ◌then_parse◌, or_incomplete, or_invalid, Metadata,
  read_counts, bad_counts, metadata_loop, valid_alignment, tensors_loop, aligned_end, sort_tensors,
  valid_offsets, make_index, finish_index, parse_index,
}

same_complete : {A : Type 0} {a b : A} → complete a ≡ complete b → a ≡ b
same_complete h = cc

through :
    {A B : Type 0} (P : B → Type 0) (o : ParseResult A) (f : A → ParseResult B) (y : B)
    → ((x : A) → f x ≡ complete y → P y)
    → (o then_parse f) ≡ complete y
    → P y
through P (complete x) f y k h = k x h
through P incomplete f y k h = absurd (ground (arith, h))
through P invalid f y k h = absurd (ground (arith, h))

-- The data begins inside the file, and the tensors stand in the order of their offsets, each in the data.
pub record IsSound (logical_size : ℕ) (index : Index) : Type 0 where
  pub size_kept : index.logical_size ≡ logical_size
  pub data_inside : index.data_offset < logical_size
  pub offsets : valid_offsets (logical_size - index.data_offset) index.tensors ≡ true

or_invalid-complete :
    {A : Type 0} (test : Bool) (x y : A) → or_invalid test x ≡ complete y → (test ≡ false) × (x ≡ y)
or_invalid-complete true x y h = absurd (ground (arith, h))
or_invalid-complete false x y h = (refl, same_complete h)

not_outside :
    (size start : ℕ) (test : Bool)
    → leb size start || not test ≡ false
    → (start < size) × (test ≡ true)
not_outside size start test h = ground (arith, h)

make_index-IsSound :
    (m : Metadata) (size start : ℕ) (tensors : List Tensor)
    → start < size
    → valid_offsets (size - start) tensors ≡ true
    → IsSound size (make_index m size start tensors)
unfolding make_index
make_index-IsSound m size start tensors h k = record {
  size_kept = refl;
  data_inside = h;
  offsets = k;
}

finish_index-IsSound :
    (size : ℕ) (m : Metadata) (metadata_end : ℕ) (tensors : List Tensor) (index : Index)
    → finish_index size m metadata_end tensors ≡ complete index
    → IsSound size index
unfolding finish_index
finish_index-IsSound size m metadata_end tensors index h =
    let start = aligned_end metadata_end m.alignment in
    let sorted = sort_tensors tensors in
    let outside = leb size start || not (valid_offsets (size - start) sorted) in
    let (t, e) = or_invalid-complete outside (make_index m size start sorted) index h in
    let (inside, ordered) = not_outside size start (valid_offsets (size - start) sorted) t in
    subst (IsSound size) e (make_index-IsSound m size start sorted inside ordered)

-- An index that `parse_index` completes, whatever the bytes, is sound: its data begins inside the file,
-- and its tensors stand by strictly increasing offsets, each inside the data.
pub parse_index-IsSound :
    (bytes : Bytes) (size : ℕ) (index : Index)
    → parse_index bytes size ≡ complete index
    → IsSound size index
unfolding parse_index
parse_index-IsSound bytes size index =
    let P = IsSound size in
    through P (or_incomplete (read_counts bytes)) _ index (λ h.
      through P (or_invalid (bad_counts h.0 h.1 h.2 h.3) h) _ index (λ g.
        through P
          (metadata_loop g.3 (record { architecture = []; alignment = 32; geometry = [] }) g.4) _
          index
          (λ f. through P (or_invalid (not (valid_alignment f.0.alignment)) f) _ index (λ f.
            through P (tensors_loop g.2 f.1) _ index (λ listed.
              finish_index-IsSound size f.0 (length bytes - length listed.1) listed.0 index)))))
