-- ===== src/Formation/Assignment/RoundTrip.antt =====
-- formation.hpp, assignment_message and parse_assignment: a valid assignment is read back as it was.
use mathlib.Core.Option
use dan.Common.{
  ℕ, ◌-◌, ◌^◌, ◌<◌, ◌≡◌, refl, ap, ◌∙◌, Bool, true, not, ◌&&◌, ◌||◌, List, [], ◌∷◌, some, Bytes,
  ◌==◌, ℤ, pos, int_lt, arith, all,
}
use dan.Common.Text.{codes, starts_with, to_string, int_to_string}
use dan.Common.Text.Decimal.{
  IsInt, parse_unsigned-to_string, parse_int-to_string, to_string-lacks, int_to_string-lacks,
}
use dan.Common.Text.Entries.{keep_if, when}
use dan.Common.Text.Entries.RoundTrip.{
  IsEntry, AllEntries, AllEntries-when, fold_entries, fold_entries-cons, read_entries-entries_text,
}
use dan.Protocol.Peers.{valid_peer_id}
use dan.Protocol.Endpoints.{is_empty, valid_ring_target}
use dan.Protocol.Endpoints.Targets.{all-lacks, valid_peer_id-lacks, valid_ring_target-lacks}
use dan.Formation.Hex.{hex_string, hex_string-lacks}
use dan.Formation.Assignment.{
  ModelAssignment, empty_assignment, assignment_entries, assignment_message, assignment_step,
  is_model_byte, is_one_line, valid_assignment, parse_assignment,
}

-- The widths that the C++ types of the fields give.
pub record HasWidths (a : ModelAssignment) : Type 0 where
  pub begin_int : IsInt a.begin
  pub end_int : IsInt a.end
  pub context_u32 : a.context < 2 ^ 32
  pub sessions_u32 : a.sessions < 2 ^ 32

read_texts :
    (id url revision sha256 : Bytes) (rest : List (Bytes × Bytes))
    → fold_entries assignment_step empty_assignment (
        (codes "model_id", id)
        ∷ (codes "url", url)
        ∷ (codes "revision", revision)
        ∷ (codes "sha256", sha256)
        ∷ rest)
      ≡ fold_entries assignment_step
          (record empty_assignment {
            model_id = id;
            url = url;
            revision = revision;
            sha256 = sha256;
          })
          rest
unfolding fold_entries assignment_step
read_texts id url revision sha256 rest = refl

read_begin :
    (a : ModelAssignment) (z : ℤ)
    → IsInt z
    → assignment_step a (codes "begin") (int_to_string z) ≡ some (record a { begin = z })
unfolding assignment_step
read_begin a z h = ap (Option.map (λ n. record a { begin = n })) (parse_int-to_string z h)

read_end :
    (a : ModelAssignment) (z : ℤ)
    → IsInt z
    → assignment_step a (codes "end") (int_to_string z) ≡ some (record a { end = z })
unfolding assignment_step
read_end a z h = ap (Option.map (λ n. record a { end = n })) (parse_int-to_string z h)

read_context :
    (a : ModelAssignment) (n : ℕ)
    → n < 2 ^ 32
    → assignment_step a (codes "context") (to_string n) ≡ some (record a { context = n })
unfolding assignment_step
read_context a n h =
    ap (Option.map (λ c. record a { context = c }))
      (parse_unsigned-to_string (2 ^ 32 - 1) n (omega arith) (omega arith))

read_sessions :
    (a : ModelAssignment) (n : ℕ)
    → n < 2 ^ 32
    → assignment_step a (codes "sessions") (to_string n) ≡ some (record a { sessions = n })
unfolding assignment_step
read_sessions a n h =
    ap (Option.map (λ c. record a { sessions = c }))
      (parse_unsigned-to_string (2 ^ 32 - 1) n (omega arith) (omega arith))

fold_next :
    (a : ModelAssignment) (next : Bytes) (rest : List (Bytes × Bytes))
    → fold_entries assignment_step
        (record a { next_endpoint = [] })
        (when (not (is_empty next)) (codes "next", next) rest)
      ≡ fold_entries assignment_step (record a { next_endpoint = next }) rest
unfolding fold_entries assignment_step
fold_next a [] rest = refl
fold_next a (c ∷ next) rest = refl

fold_previous :
    (a : ModelAssignment) (previous : Bytes)
    → fold_entries assignment_step
        (record a { previous_peer_id = [] })
        (when (not (is_empty previous)) (codes "previous_peer", previous) [])
      ≡ some (record a { previous_peer_id = previous })
unfolding fold_entries assignment_step
fold_previous a [] = refl
fold_previous a (c ∷ previous) = refl

fold_assignment :
    (a : ModelAssignment)
    → HasWidths a
    → fold_entries assignment_step empty_assignment (assignment_entries a) ≡ some a
unfolding assignment_entries
fold_assignment a w =
    let r4 = record empty_assignment {
      model_id = a.model_id;
      url = a.url;
      revision = a.revision;
      sha256 = a.sha256;
    } in
    let r5 = record r4 { begin = a.begin } in
    let r6 = record r5 { end = a.end } in
    let r7 = record r6 { context = a.context } in
    read_texts a.model_id a.url a.revision a.sha256 _
    ∙ fold_entries-cons assignment_step _ (read_begin r4 a.begin w.begin_int)
    ∙ fold_entries-cons assignment_step _ (read_end r5 a.end w.end_int)
    ∙ fold_entries-cons assignment_step _ (read_context r6 a.context w.context_u32)
    ∙ fold_entries-cons assignment_step _ (read_sessions r7 a.sessions w.sessions_u32)
    ∙ fold_next (record a { previous_peer_id = [] }) a.next_endpoint _
    ∙ fold_previous a a.previous_peer_id

chain :
    (c0 c1 c2 c3 c4 c5 c6 c7 c8 c9 c10 c11 : Bool)
    → (c0 && c1 && c2 && c3 && c4 && c5 && c6 && c7 && c8 && c9 && c10 && c11) ≡ true
    → (c1 ≡ true) × (c3 ≡ true) × (c4 ≡ true) × (c5 ≡ true) × (c10 ≡ true) × (c11 ≡ true)
chain c0 c1 c2 c3 c4 c5 c6 c7 c8 c9 c10 c11 h = ground arith

valid_texts :
    (a : ModelAssignment)
    → valid_assignment a ≡ true
    → (all is_model_byte a.model_id ≡ true)
      × (is_one_line a.url ≡ true)
      × (hex_string a.revision 40 ≡ true)
      × (hex_string a.sha256 64 ≡ true)
      × (valid_ring_target a.next_endpoint ≡ true)
      × ((is_empty a.previous_peer_id
            || (not (is_empty a.next_endpoint) && valid_peer_id a.previous_peer_id))
          ≡ true)
unfolding valid_assignment
valid_texts a h =
    chain (not (is_empty a.model_id)) (all is_model_byte a.model_id)
      (starts_with a.url (codes "https://")) (is_one_line a.url) (hex_string a.revision 40)
      (hex_string a.sha256 64) (not (int_lt a.begin (pos 0))) (int_lt a.begin a.end)
      (not (a.context == 0)) (not (a.sessions == 0)) (valid_ring_target a.next_endpoint)
      (is_empty a.previous_peer_id
        || (not (is_empty a.next_endpoint) && valid_peer_id a.previous_peer_id))
      h

previous-IsEntry :
    (previous next : Bytes)
    → (is_empty previous || (not (is_empty next) && valid_peer_id previous)) ≡ true
    → not (is_empty previous) ≡ true
    → IsEntry (codes "previous_peer", previous)
previous-IsEntry previous next h k = (refl, refl, valid_peer_id-lacks previous (ground arith))

entries-AllEntries :
    (a : ModelAssignment) → valid_assignment a ≡ true → AllEntries (assignment_entries a)
unfolding assignment_entries
entries-AllEntries a h =
    let (id, url, revision, sha256, next, previous) = valid_texts a h in
    (
      (refl, refl, all-lacks is_model_byte b'\n' refl a.model_id id),
      (
        (refl, refl, all-lacks (λ c. not (c == 13 || c == 10)) b'\n' refl a.url url),
        (
          (refl, refl, hex_string-lacks b'\n' a.revision 40 refl revision),
          (
            (refl, refl, hex_string-lacks b'\n' a.sha256 64 refl sha256),
            (
              (refl, refl, int_to_string-lacks b'\n' a.begin refl refl),
              (
                (refl, refl, int_to_string-lacks b'\n' a.end refl refl),
                (
                  (refl, refl, to_string-lacks b'\n' a.context refl),
                  (
                    (refl, refl, to_string-lacks b'\n' a.sessions refl),
                    AllEntries-when (not (is_empty a.next_endpoint)) (codes "next", a.next_endpoint)
                        _ (λ _. (refl, refl, valid_ring_target-lacks a.next_endpoint next))
                        (AllEntries-when (not (is_empty a.previous_peer_id))
                          (codes "previous_peer", a.previous_peer_id) _
                          (previous-IsEntry a.previous_peer_id a.next_endpoint previous) tt),
                  ),
                ),
              ),
            ),
          ),
        ),
      ),
    )

-- An assignment that the checks of `parse_assignment` accept, and whose fields have their C++ widths,
-- is read back from its message as it was.
pub parse_assignment-assignment_message :
    (a : ModelAssignment)
    → HasWidths a
    → valid_assignment a ≡ true
    → parse_assignment (assignment_message a) ≡ some a
unfolding parse_assignment assignment_message
parse_assignment-assignment_message a w v =
    ap (keep_if valid_assignment) (
      read_entries-entries_text assignment_step empty_assignment (assignment_entries a)
        (entries-AllEntries a v)
      ∙ fold_assignment a w)
    ∙ rw v refl
