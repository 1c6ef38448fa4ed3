-- ===== src/Lease/Messages/RoundTrip.antt =====
-- lease.hpp, stage_request_message and parse_stage_request: a valid request is read back as it was.
use mathlib.Core.Option
use dan.Common.{
  ℕ, zero, suc, ◌-◌, ◌^◌, ◌<◌, ◌≡◌, refl, ap, ◌∙◌, true, false, not, ◌||◌, List, [], ◌∷◌, some,
  Bytes, ◌==◌, ℤ, arith,
}
use dan.Common.Text.{codes, to_string, int_to_string}
use dan.Common.Text.Decimal.{
  IsInt, parse_unsigned-to_string, parse_int-to_string, to_string-lacks, int_to_string-lacks,
}
use dan.Common.Text.Entries.{keep_if, when}
use dan.Common.Text.Entries.RoundTrip.{
  IsEntry, AllEntries, AllEntries-when, fold_entries, fold_entries-cons, read_entries-entries_text,
}
use dan.Protocol.Frame.{DType, activation_dtype}
use dan.Protocol.Endpoints.{is_empty}
use dan.Formation.Hex.{hex_string, hex_string-lacks}
use dan.Lease.{StageRequest, empty_request}
use dan.Lease.Messages.{
  activation_entries, stage_request_entries, stage_request_message, stage_request_step,
  valid_stage_request, parse_stage_request,
}

-- The widths that the C++ types of the fields give.
pub record HasWidths (r : StageRequest) : Type 0 where
  pub begin_int : IsInt r.begin
  pub end_int : IsInt r.end
  pub context_u32 : r.context < 2 ^ 32
  pub sessions_u32 : r.sessions < 2 ^ 32
  pub lease_u32 : r.lease_ms < 2 ^ 32
  pub activations_known : activation_dtype r.activations ≡ true

fold_activations :
    (r : StageRequest) (a : DType)
    → activation_dtype a ≡ true
    → fold_entries stage_request_step
        (record r { activations = DType.f32le })
        (activation_entries a)
      ≡ some (record r { activations = a })
unfolding fold_entries stage_request_step
fold_activations r DType.none h = cc
fold_activations r DType.f32le h = refl
fold_activations r DType.f16le h = refl
fold_activations r DType.fp8e4m3 h = refl
fold_activations r (DType.unnamed n) h = cc

fold_draft :
    (r : StageRequest) (draft : Bytes) (rest : List (Bytes × Bytes))
    → fold_entries stage_request_step
        (record r { draft_sha256 = [] })
        (when (not (is_empty draft)) (codes "draft_sha256", draft) rest)
      ≡ fold_entries stage_request_step (record r { draft_sha256 = draft }) rest
unfolding fold_entries stage_request_step
fold_draft r [] rest = refl
fold_draft r (c ∷ draft) rest = refl

read_lease :
    (r : StageRequest) (n : ℕ)
    → n < 2 ^ 32
    → stage_request_step r (codes "lease_ms") (to_string n) ≡ some (record r { lease_ms = n })
unfolding stage_request_step
read_lease r n h =
    ap (Option.map (λ c. record r { lease_ms = c }))
      (parse_unsigned-to_string (2 ^ 32 - 1) n (omega arith) (omega arith))

read_begin :
    (r : StageRequest) (z : ℤ)
    → IsInt z
    → stage_request_step r (codes "begin") (int_to_string z) ≡ some (record r { begin = z })
unfolding stage_request_step
read_begin r z h = ap (Option.map (λ n. record r { begin = n })) (parse_int-to_string z h)

read_end :
    (r : StageRequest) (z : ℤ)
    → IsInt z
    → stage_request_step r (codes "end") (int_to_string z) ≡ some (record r { end = z })
unfolding stage_request_step
read_end r z h = ap (Option.map (λ n. record r { end = n })) (parse_int-to_string z h)

read_context :
    (r : StageRequest) (n : ℕ)
    → n < 2 ^ 32
    → stage_request_step r (codes "context") (to_string n) ≡ some (record r { context = n })
unfolding stage_request_step
read_context r n h =
    ap (Option.map (λ c. record r { context = c }))
      (parse_unsigned-to_string (2 ^ 32 - 1) n (omega arith) (omega arith))

read_sessions :
    (r : StageRequest) (n : ℕ)
    → n < 2 ^ 32
    → stage_request_step r (codes "sessions") (to_string n) ≡ some (record r { sessions = n })
unfolding stage_request_step
read_sessions r n h =
    ap (Option.map (λ c. record r { sessions = c }))
      (parse_unsigned-to_string (2 ^ 32 - 1) n (omega arith) (omega arith))

fold_lease :
    (r : StageRequest) (lease : ℕ) (rest : List (Bytes × Bytes))
    → lease < 2 ^ 32
    → fold_entries stage_request_step
        (record r { lease_ms = 0 })
        (when (not (lease == 0)) (codes "lease_ms", to_string lease) rest)
      ≡ fold_entries stage_request_step (record r { lease_ms = lease }) rest
fold_lease r zero rest h = refl
fold_lease r (suc n) rest h =
    let e : (suc n == 0) ≡ false = ground arith in
    rw e
      (fold_entries-cons stage_request_step rest (read_lease (record r { lease_ms = 0 }) (suc n) h))

read_texts :
    (route model : Bytes) (rest : List (Bytes × Bytes))
    → fold_entries stage_request_step empty_request
        ((codes "route_id", route) ∷ (codes "model_sha256", model) ∷ rest)
      ≡ fold_entries stage_request_step
          (record empty_request { route_id = route; model_sha256 = model })
          rest
unfolding fold_entries stage_request_step
read_texts route model rest = refl

fold_first :
    (r : StageRequest) (rest : List (Bytes × Bytes))
    → HasWidths r
    → fold_entries stage_request_step empty_request (
        (codes "route_id", r.route_id)
        ∷ (codes "model_sha256", r.model_sha256)
        ∷ (codes "begin", int_to_string r.begin)
        ∷ (codes "end", int_to_string r.end)
        ∷ (codes "context", to_string r.context)
        ∷ (codes "sessions", to_string r.sessions)
        ∷ rest)
      ≡ fold_entries stage_request_step
          (record r { lease_ms = 0; draft_sha256 = []; activations = DType.f32le })
          rest
fold_first r rest w =
    let r2 = record empty_request { route_id = r.route_id; model_sha256 = r.model_sha256 } in
    let r3 = record r2 { begin = r.begin } in
    let r4 = record r3 { end = r.end } in
    let r5 = record r4 { context = r.context } in
    read_texts r.route_id r.model_sha256 _
    ∙ fold_entries-cons stage_request_step _ (read_begin r2 r.begin w.begin_int)
    ∙ fold_entries-cons stage_request_step _ (read_end r3 r.end w.end_int)
    ∙ fold_entries-cons stage_request_step _ (read_context r4 r.context w.context_u32)
    ∙ fold_entries-cons stage_request_step rest (read_sessions r5 r.sessions w.sessions_u32)

fold_request :
    (r : StageRequest)
    → HasWidths r
    → fold_entries stage_request_step empty_request (stage_request_entries r) ≡ some r
unfolding stage_request_entries
fold_request r w =
    fold_first r _ w
    ∙ fold_lease (record r { draft_sha256 = []; activations = DType.f32le }) r.lease_ms _
        w.lease_u32
    ∙ fold_draft (record r { activations = DType.f32le }) r.draft_sha256
        (activation_entries r.activations)
    ∙ fold_activations r r.activations w.activations_known

AllEntries-activations : (a : DType) → AllEntries (activation_entries a)
AllEntries-activations DType.f16le = ((refl, refl, refl), tt)
AllEntries-activations DType.fp8e4m3 = ((refl, refl, refl), tt)
AllEntries-activations DType.none = tt
AllEntries-activations DType.f32le = tt
AllEntries-activations (DType.unnamed n) = tt

draft-IsEntry :
    (draft : Bytes)
    → (is_empty draft || hex_string draft 64) ≡ true
    → not (is_empty draft) ≡ true
    → IsEntry (codes "draft_sha256", draft)
draft-IsEntry draft h k = (refl, refl, hex_string-lacks b'\n' draft 64 refl (ground arith))

valid_texts :
    (r : StageRequest)
    → valid_stage_request r ≡ true
    → (hex_string r.route_id 32 ≡ true)
      × (hex_string r.model_sha256 64 ≡ true)
      × ((is_empty r.draft_sha256 || hex_string r.draft_sha256 64) ≡ true)
unfolding valid_stage_request
valid_texts r h = ground arith

entries-AllEntries :
    (r : StageRequest) → valid_stage_request r ≡ true → AllEntries (stage_request_entries r)
unfolding stage_request_entries
entries-AllEntries r h =
    let (route, model, draft) = valid_texts r h in
    (
      (refl, refl, hex_string-lacks b'\n' r.route_id 32 refl route),
      (
        (refl, refl, hex_string-lacks b'\n' r.model_sha256 64 refl model),
        (
          (refl, refl, int_to_string-lacks b'\n' r.begin refl refl),
          (
            (refl, refl, int_to_string-lacks b'\n' r.end refl refl),
            (
              (refl, refl, to_string-lacks b'\n' r.context refl),
              (
                (refl, refl, to_string-lacks b'\n' r.sessions refl),
                AllEntries-when (not (r.lease_ms == 0)) (codes "lease_ms", to_string r.lease_ms) _
                    (λ _. (refl, refl, to_string-lacks b'\n' r.lease_ms refl))
                    (AllEntries-when (not (is_empty r.draft_sha256))
                      (codes "draft_sha256", r.draft_sha256) _ (draft-IsEntry r.draft_sha256 draft)
                      (AllEntries-activations r.activations)),
              ),
            ),
          ),
        ),
      ),
    )

-- A request that the checks of `parse_stage_request` accept, whose fields have their C++ widths and
-- whose activation format is one of the three, is read back from its message as it was.
pub parse_stage_request-stage_request_message :
    (r : StageRequest)
    → HasWidths r
    → valid_stage_request r ≡ true
    → parse_stage_request (stage_request_message r) ≡ some r
unfolding parse_stage_request stage_request_message
parse_stage_request-stage_request_message r w v =
    ap (keep_if valid_stage_request) (
      read_entries-entries_text stage_request_step empty_request (stage_request_entries r)
        (entries-AllEntries r v)
      ∙ fold_request r w)
    ∙ rw v refl
