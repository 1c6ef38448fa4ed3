-- ===== src/Measurement/Bandwidth.antt =====
-- measurement.hpp, BandwidthTable: how fast large frames arrived from each peer.
use dan.Common.{
  ℕ, ◌*◌, ◌^◌, Bool, not, ◌||◌, List, [], ◌∷◌, ◌++◌, Option, none, some, Bytes, bytes_eq, ltb, leb,
  if◌then◌else◌, ℤ, pos, int_lt, ◌-ℤ◌, length,
}
use dan.Common.Double.{Doubles}
use dan.Protocol.Endpoints.{is_empty}

abbrev pub min_bandwidth_frame_bytes : ℕ
min_bandwidth_frame_bytes = 2 ^ 20

abbrev pub max_bandwidth_peers : ℕ
max_bandwidth_peers = 32

abbrev pub bandwidth_max_age_s : ℕ
bandwidth_max_age_s = 24 * 3600

pub record Entry (d : Doubles) : Type 0 where
  pub peer : Bytes
  pub kib_per_s : d.Double
  pub updated_unix_s : ℤ

module _ (d : Doubles) where
  open d use {Double, literal, of_nat, add, mul, div, lt, is_finite}

  abbrev pub find_entry : Bytes → List (Entry d) → Option (Entry d)
  find_entry peer [] = none
  find_entry peer (e ∷ es) = if bytes_eq e.peer peer then some e else find_entry peer es

  abbrev pub is_stale : Entry d → ℤ → Bool
  is_stale e now = int_lt (pos bandwidth_max_age_s) (now -ℤ e.updated_unix_s)

  abbrev pub older_entry :
      Entry d → List (Entry d) → Option (Entry d × List (Entry d)) → Entry d × List (Entry d)
  older_entry e es none = (e, [])
  older_entry e es (some (oldest, rest)) =
      if not (int_lt oldest.updated_unix_s e.updated_unix_s) then (e, es) else (oldest, e ∷ rest)

  unfoldable pub oldest_entry : List (Entry d) → Option (Entry d × List (Entry d))
  oldest_entry [] = none
  oldest_entry (e ∷ es) = some (older_entry e es (oldest_entry es))

  unfoldable pub erase_entry : List (Entry d) → List (Entry d)
  unfolding oldest_entry
  erase_entry entries = elim (oldest_entry entries) [ none ↦ entries | some (oldest, rest) ↦ rest ]

  -- The write through the iterator of `find_if`.
  unfoldable pub replace_entry : Bytes → Entry d → List (Entry d) → List (Entry d)
  replace_entry peer new [] = []
  replace_entry peer new (e ∷ es) =
      let rest = replace_entry peer new es in if bytes_eq e.peer peer then new ∷ es else e ∷ rest

  abbrev pub store_rate : List (Entry d) → Bytes → Double → ℤ → Option (Entry d) → List (Entry d)
  store_rate entries peer rate now none =
      (if leb max_bandwidth_peers (length entries) then erase_entry entries else entries)
      ++ record { peer = peer; kib_per_s = rate; updated_unix_s = now } ∷ []
  store_rate entries peer rate now (some e) =
      replace_entry peer
        (record e {
          kib_per_s =
              if is_stale e now
              then rate
              else add (mul e.kib_per_s (literal 7 10)) (mul rate (literal 3 10));
          updated_unix_s = now;
        })
        entries

  unfoldable pub observe_frame : List (Entry d) → Bytes → ℕ → Double → ℤ → List (Entry d)
  unfolding erase_entry replace_entry
  observe_frame entries peer bytes seconds now =
      if is_empty peer || ltb bytes min_bandwidth_frame_bytes || not (lt (of_nat 0) seconds)
      then entries
      else (let rate = div (div (of_nat bytes) (of_nat 1024)) seconds in
          if not (is_finite rate)
          then entries
          else store_rate entries peer rate now (find_entry peer entries))

  -- `std::clamp(value, 1.0, 100.0 * 1024 * 1024)`
  abbrev pub clamp_rate : Double → Double
  clamp_rate rate =
      let most = mul (mul (of_nat 100) (of_nat 1024)) (of_nat 1024) in
      if lt rate (of_nat 1) then of_nat 1 else if lt most rate then most else rate

  -- The cast of a double to uint32_t is the parameter `truncate`.
  unfoldable pub kib_per_s_of : (Double → ℕ) → List (Entry d) → Bytes → ℤ → ℕ
  kib_per_s_of truncate [] peer now = 0
  kib_per_s_of truncate (e ∷ es) peer now =
      if not (bytes_eq e.peer peer) || is_stale e now
      then kib_per_s_of truncate es peer now
      else truncate (clamp_rate e.kib_per_s)
