-- ===== src/Formation/Greeting/Parse/Fields.antt =====
-- formation.hpp, parse_available: what the readers of single values answer.
use mathlib.Core.Path.{subst}
use dan.Common.{
  ℕ, suc, ◌≡◌, refl, ap, Bool, true, false, not, ◌&&◌, List, [], ◌∷◌, ◌++◌, Option, none, some,
  Bytes, bytes_eq, leb, ◌==◌, ◌>>=◌, length, all, arith, Bool-cases, inl, inr, &&-true, int_lt, pos,
}
use dan.Common.Text.{split_at, parse_unsigned, parse_int}
use dan.Common.Text.Entries.{keep_if}
use dan.Common.Text.Entries.Keeps.{same_some}
use dan.Protocol.Peers.{valid_peer_id}
use dan.Measurement.Speeds.{u32_max}
use dan.Formation.Hex.{is_hex, hex_string}
use dan.Formation.Greeting.{CachedRange, PeerLink}
use dan.Formation.Greeting.Parse.{
  check, valid_range, parse_cached, parse_link, valid_path, set_bandwidth, parse_link_bw,
  max_greeting_kib_per_s,
}

abbrev pub valid_link : PeerLink → Bool
valid_link link =
    valid_peer_id link.peer && (leb link.rtt_ms 60000 && leb link.kib_per_s max_greeting_kib_per_s)

-- 64 hex digits.
abbrev pub valid_hash : Bytes → Bool
valid_hash model = length model == 64 && all is_hex model

-- Layers of a model named by its hash: one at least, from 0 to 4096.
abbrev pub sound_range : CachedRange → Bool
sound_range range =
    valid_hash range.model_sha256
    && (not (int_lt range.begin (pos 0))
        && int_lt range.begin range.end
        && not (int_lt (pos 4096) range.end))

pub hex_string-valid_hash : (model : Bytes) → hex_string model 64 ≡ true → valid_hash model ≡ true
unfolding hex_string
hex_string-valid_hash model h = h

pub through :
    {A B : Type 0} (P : B → Type 0) (o : Option A) (f : A → Option B) (y : B)
    → ((x : A) → o ≡ some x → f x ≡ some y → P y)
    → (o >>= f) ≡ some y
    → P y
through P none f y k h = absurd (ground (arith, h))
through P (some x) f y k h = k x refl h

pub keep_if-some :
    {A : Type 0} (test : A → Bool) (o : Option A) (y : A) → keep_if test o ≡ some y → o ≡ some y
keep_if-some test none y h = h
keep_if-some test (some x) y h = elim (Bool-cases (test x)) [
  | inl e ↦ rw e at h
  | inr e ↦ absurd (ground (arith, rw e at h))
]

through_check :
    {A B : Type 0} (P : B → Type 0) (test : Bool) (x : A) (f : A → Option B) (y : B)
    → (test ≡ true → f x ≡ some y → P y)
    → (check test x >>= f) ≡ some y
    → P y
through_check P true x f y k h = k refl h
through_check P false x f y k h = absurd (ground (arith, h))

pub keep_if-true :
    {A : Type 0} (test : A → Bool) (o : Option A) (y : A) → keep_if test o ≡ some y → test y ≡ true
keep_if-true test none y h = absurd (ground (arith, h))
keep_if-true test (some x) y h = elim (Bool-cases (test x)) [
  | inl e ↦ subst (λ z. test z ≡ true) (same_some (rw e at h)) e
  | inr e ↦ absurd (ground (arith, rw e at h))
]

pub check-some :
    {A : Type 0} (test : Bool) (x y : A) → check test x ≡ some y → (test ≡ true) × (x ≡ y)
check-some true x y h = (refl, cc)
check-some false x y h = absurd (ground (arith, h))

pub length-append_one : {A : Type 0} (xs : List A) (x : A) → length (xs ++ x ∷ []) ≡ suc (length xs)
length-append_one [] x = refl
length-append_one (y ∷ xs) x = ap suc (length-append_one xs x)

pub all-append_one :
    {A : Type 0} (p : A → Bool) (xs : List A) (x : A)
    → all p xs ≡ true
    → p x ≡ true
    → all p (xs ++ x ∷ []) ≡ true
all-append_one p [] x h k = rw k refl
all-append_one p (y ∷ xs) x h k = ground (arith, all-append_one p xs x)

valid_range-of :
    (r range : CachedRange) → keep_if valid_range (some r) ≡ some range → valid_range r ≡ true
valid_range-of r range h = elim (Bool-cases (valid_range r)) [
  | inl e ↦ e
  | inr e ↦ absurd (ground (arith, rw e at h))
]

pub parse_cached-sound_range :
    (value : Bytes) (range : CachedRange)
    → parse_cached value ≡ some range
    → sound_range range ≡ true
unfolding parse_cached
parse_cached-sound_range value range =
    let P = λ (r : CachedRange). sound_range r ≡ true in
    through P (split_at b':' value) _ range (λ a _. through P (split_at b'-' a.1) _ range (λ b _.
      through_check P (hex_string a.0 64) a.0 _ range (λ hex.
        through P (parse_int b.0) _ range (λ begin _. through P (parse_int b.1) _ range (λ end _ h.
          let r : CachedRange = record { model_sha256 = a.0; begin = begin; end = end } in
          subst P (same_some (keep_if-some valid_range (some r) range h))
            (rw (hex_string-valid_hash a.0 hex) (valid_range-of r range h)))))))

rtt_bound : (rtt : ℕ) (path : Bool) → leb rtt 60000 && path ≡ true → leb rtt 60000 && true ≡ true
rtt_bound rtt path h = ground arith

pub parse_link-valid_link :
    (value : Bytes) (link : PeerLink) → parse_link value ≡ some link → valid_link link ≡ true
unfolding parse_link
parse_link-valid_link value link =
    let P = λ (l : PeerLink). valid_link l ≡ true in
    through P (split_at b':' value) _ link (λ a _. through P (split_at b':' a.1) _ link (λ b _.
      through_check P (valid_peer_id a.0) a.0 _ link (λ peer.
        through P (parse_unsigned u32_max b.0) _ link (λ rtt_ms _ h.
          through_check P (leb rtt_ms 60000 && valid_path b.1) rtt_ms _ link
            (λ t e. subst P (same_some e) (rw peer (rtt_bound rtt_ms (valid_path b.1) t))) h))))

set_bandwidth-all :
    (peer : Bytes) (kib : ℕ) (links links' : List PeerLink)
    → leb kib max_greeting_kib_per_s ≡ true
    → all valid_link links ≡ true
    → set_bandwidth peer kib links ≡ some links'
    → (all valid_link links' ≡ true) × (length links' ≡ length links)
unfolding set_bandwidth
set_bandwidth-all peer kib [] links' k v h = absurd (ground (arith, h))
set_bandwidth-all peer kib (link ∷ links) links' k v h =
    let P =
      λ (ls : List PeerLink). (all valid_link ls ≡ true) × (length ls ≡ length (link ∷ links)) in
    let (one, others) = &&-true (valid_link link) (all valid_link links) v in
    let (known, limits) = &&-true (valid_peer_id link.peer) _ one in
    let (rtt, rate) =
      &&-true (leb link.rtt_ms 60000) (leb link.kib_per_s max_greeting_kib_per_s) limits in
    elim (Bool-cases (bytes_eq link.peer peer)) [
      | inl same ↦
          let (_, e) =
            check-some (link.kib_per_s == 0) (record link { kib_per_s = kib } ∷ links) links'
              (rw same at h) in
          subst P e (rw (known, rtt, k) others, refl)
      | inr other ↦
          through P (set_bandwidth peer kib links) (λ rest. some (link ∷ rest)) links'
            (λ rest found e.
              let (v', n) = set_bandwidth-all peer kib links rest k others found in
              subst P (same_some e) (rw one v', ap suc n))
            (rw other at h)
    ]

pub parse_link_bw-all :
    (value : Bytes) (links links' : List PeerLink)
    → all valid_link links ≡ true
    → parse_link_bw value links ≡ some links'
    → (all valid_link links' ≡ true) × (length links' ≡ length links)
unfolding parse_link_bw
parse_link_bw-all value links links' v =
    let P = λ (ls : List PeerLink). (all valid_link ls ≡ true) × (length ls ≡ length links) in
    through P (split_at b':' value) _ links' (λ a _.
      through P (parse_unsigned u32_max a.1) _ links' (λ n _.
        through_check P (not (n == 0) && leb n max_greeting_kib_per_s) n _ links' (λ t e.
          set_bandwidth-all a.0 n links links'
            (&&-true (not (n == 0)) (leb n max_greeting_kib_per_s) t).1 v e)))
