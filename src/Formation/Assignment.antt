-- ===== src/Formation/Assignment.antt =====
-- formation.hpp, lines 72 to 146: the assignment of a stage to a worker, as text.
pub mod RoundTrip
use mathlib.Core.Option
use dan.Common.{
  ℕ, ◌-◌, ◌^◌, Bool, true, false, not, ◌&&◌, ◌||◌, List, [], ◌∷◌, ◌++◌, Option, none, some, Bytes,
  bytes_eq, leb, ◌==◌, if◌then◌else◌, ℤ, pos, int_eq, int_lt, all,
}
use dan.Common.Text.{codes, starts_with, to_string, int_to_string, parse_unsigned, parse_int}
use dan.Common.Text.Entries.{entries_text, read_entries, keep_if, when}
use dan.Protocol.Peers.{valid_peer_id}
use dan.Protocol.Endpoints.{is_empty, valid_ring_target}
use dan.Formation.Hex.{hex_string}

pub record ModelAssignment : Type 0 where
  pub model_id : Bytes
  pub url : Bytes
  pub revision : Bytes
  pub sha256 : Bytes
  pub begin : ℤ
  pub end : ℤ
  pub context : ℕ
  pub sessions : ℕ
  pub next_endpoint : Bytes
  pub previous_peer_id : Bytes

-- `ModelAssignment{}`
abbrev pub empty_assignment : ModelAssignment
empty_assignment = record {
  model_id = [];
  url = [];
  revision = [];
  sha256 = [];
  begin = pos 0;
  end = pos 0;
  context = 0;
  sessions = 0;
  next_endpoint = [];
  previous_peer_id = [];
}

-- `same_stage`
abbrev pub same_model_stage : ModelAssignment → ModelAssignment → Bool
same_model_stage a b =
    bytes_eq a.model_id b.model_id
    && bytes_eq a.url b.url
    && bytes_eq a.revision b.revision
    && bytes_eq a.sha256 b.sha256
    && int_eq a.begin b.begin
    && int_eq a.end b.end
    && a.context == b.context
    && a.sessions == b.sessions

unfoldable pub assignment_entries : ModelAssignment → List (Bytes × Bytes)
assignment_entries a =
    (codes "model_id", a.model_id)
    ∷ (codes "url", a.url)
    ∷ (codes "revision", a.revision)
    ∷ (codes "sha256", a.sha256)
    ∷ (codes "begin", int_to_string a.begin)
    ∷ (codes "end", int_to_string a.end)
    ∷ (codes "context", to_string a.context)
    ∷ (codes "sessions", to_string a.sessions)
    ∷ when (not (is_empty a.next_endpoint)) (codes "next", a.next_endpoint)
        (when (not (is_empty a.previous_peer_id)) (codes "previous_peer", a.previous_peer_id) [])

unfoldable pub assignment_message : ModelAssignment → Bytes
assignment_message a = entries_text (assignment_entries a)

unfoldable pub assignment_step : ModelAssignment → Bytes → Bytes → Option ModelAssignment
assignment_step a key value =
    if bytes_eq key (codes "model_id")
    then some (record a { model_id = value })
    else if bytes_eq key (codes "url")
    then some (record a { url = value })
    else if bytes_eq key (codes "revision")
    then some (record a { revision = value })
    else if bytes_eq key (codes "sha256")
    then some (record a { sha256 = value })
    else if bytes_eq key (codes "begin")
    then Option.map (λ n. record a { begin = n }) (parse_int value)
    else if bytes_eq key (codes "end")
    then Option.map (λ n. record a { end = n }) (parse_int value)
    else if bytes_eq key (codes "context")
    then Option.map (λ n. record a { context = n }) (parse_unsigned (2 ^ 32 - 1) value)
    else if bytes_eq key (codes "sessions")
    then Option.map (λ n. record a { sessions = n }) (parse_unsigned (2 ^ 32 - 1) value)
    else if bytes_eq key (codes "next")
    then some (record a { next_endpoint = value })
    else if bytes_eq key (codes "previous_peer")
    then some (record a { previous_peer_id = value })
    else none

-- Letters, digits and "-_.".
abbrev pub is_model_byte : ℕ → Bool
is_model_byte c =
    (leb b'a' c && leb c b'z')
    || (leb b'A' c && leb c b'Z')
    || (leb b'0' c && leb c b'9')
    || c == b'-'
    || c == b'_'
    || c == b'.'

-- `find_first_of("\r\n") == npos`
abbrev pub is_one_line : Bytes → Bool
is_one_line = all (λ c. not (c == 13 || c == 10))

unfoldable pub valid_assignment : ModelAssignment → Bool
valid_assignment a =
    not (is_empty a.model_id)
    && all is_model_byte a.model_id
    && starts_with a.url (codes "https://")
    && is_one_line a.url
    && hex_string a.revision 40
    && hex_string a.sha256 64
    && not (int_lt a.begin (pos 0))
    && int_lt a.begin a.end
    && not (a.context == 0)
    && not (a.sessions == 0)
    && valid_ring_target a.next_endpoint
    && (is_empty a.previous_peer_id
        || (not (is_empty a.next_endpoint) && valid_peer_id a.previous_peer_id))

unfoldable pub parse_assignment : Bytes → Option ModelAssignment
parse_assignment text =
    keep_if valid_assignment (read_entries assignment_step empty_assignment text)
