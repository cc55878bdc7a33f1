-- ===== src/Client/Results.antt =====
-- session.py of reachy_session_client: `_apply` and `latest`.
use mathlib.Core.Option.{some-injective}
use reachy.Prelude.{
  ℕ, suc, ◌-◌, ◌≤◌, ◌<◌, ◌≡◌, ◌⊎◌, ◌↔◌, subst, sym, refl, inl, inr, String, true, false, Option,
  none, some, ltb, leb, Result, ok, err, arith, Bool-cases, Option-cases,
}
use reachy.Link.Contract.{Bytes, Capability, ResultEnvelope, PayloadClass, payload_class}
use reachy.Link.Libraries.{envelope_from_wire}
use reachy.Client.{
  Environment, Settings, FrameResult, SessionClient, ClientError, protocol_error, agreed,
  capability_of, apply, apply_class, apply_parsed, apply_envelope, is_older, ignored, superseded,
  applied, frame_result, latest, unless_stale,
}

-- No result of a later frame was applied on this connection.
pub data IsNewest (sequence : ℕ) : Option ℕ → Type 0 where
  first : IsNewest sequence none
  after : (highest : ℕ) → highest ≤ sequence → IsNewest sequence (some highest)

-- What one result comes to.
pub data Applied (env : Environment) (payload : Bytes) (now : ℕ) (s : SessionClient)
    (r : Result ClientError (Option FrameResult) × SessionClient) : Type 0 where
  not_agreed :
      agreed s (capability_of env payload) ≡ none
      → r ≡ (
        ok none,
        record s { stats = record s.stats { results_ignored = suc s.stats.results_ignored } },
      )
      → Applied env payload now s r
  not_known :
      payload_class (capability_of env payload) ≡ none
      → r ≡ (
        ok none,
        record s { stats = record s.stats { results_ignored = suc s.stats.results_ignored } },
      )
      → Applied env payload now s r
  not_parsed :
      (class : PayloadClass) (summary message : String)
      → envelope_from_wire env.models class payload ≡ err summary
      → r ≡ (err (protocol_error message), s)
      → Applied env payload now s r
  is_superseded :
      (class : PayloadClass) (envelope : ResultEnvelope) (highest : ℕ)
      → envelope_from_wire env.models class payload ≡ ok envelope
      → s.highest_applied ≡ some highest
      → envelope.sequence < highest
      → r ≡ (
        ok none,
        record s { stats = record s.stats { results_superseded = suc s.stats.results_superseded } },
      )
      → Applied env payload now s r
  is_applied :
      (capability : Capability) (class : PayloadClass) (envelope : ResultEnvelope)
      (handed : FrameResult)
      → agreed s (capability_of env payload) ≡ some capability
      → payload_class (capability_of env payload) ≡ some class
      → envelope_from_wire env.models class payload ≡ ok envelope
      → IsNewest envelope.sequence s.highest_applied
      → handed.envelope ≡ envelope
      → handed.received_at ≡ now
      → r ≡ (
        ok (some handed),
        record s {
          highest_applied = some envelope.sequence;
          stats = record s.stats { results_applied = suc s.stats.results_applied };
          latest_result = some handed;
        },
      )
      → Applied env payload now s r

is_older_cases :
    (sequence : ℕ) (h : Option ℕ)
    → ((highest : ℕ) × (h ≡ some highest) × (sequence < highest) × (is_older sequence h ≡ true))
      ⊎ (IsNewest sequence h × (is_older sequence h ≡ false))
unfolding is_older
is_older_cases sequence none = inr (first, refl)
is_older_cases sequence (some highest) = elim (Bool-cases (ltb sequence highest)) [
  | inl older ↦ inl (highest, refl, ground arith, older)
  | inr newer ↦ inr (after highest (ground arith), newer)
]

module _ (env : Environment) (payload : Bytes) (now : ℕ) (s : SessionClient)
    (capability : Capability) (known : agreed s (capability_of env payload) ≡ some capability) where
  parsed_cases :
      (class : PayloadClass) (r : Result String ResultEnvelope)
      → payload_class (capability_of env payload) ≡ some class
      → envelope_from_wire env.models class payload ≡ r
      → Applied env payload now s (apply_parsed env r now s)
  unfolding apply_parsed apply_envelope superseded applied frame_result
  parsed_cases class (err summary) registered e = not_parsed class summary _ e refl
  parsed_cases class (ok envelope) registered e =
      elim (is_older_cases envelope.sequence s.highest_applied) [
        | inl (highest, h, older, test) ↦
            rw test (is_superseded class envelope highest e h older refl)
        | inr (newest, test) ↦ rw test (
            is_applied capability class envelope (frame_result env envelope now) known registered e
              newest refl refl refl)
      ]

  class_cases :
      (c : Option PayloadClass)
      → payload_class (capability_of env payload) ≡ c
      → Applied env payload now s (apply_class env c payload now s)
  unfolding apply_class ignored
  class_cases none registered = not_known registered refl
  class_cases (some class) registered = parsed_cases class _ registered refl

-- A result comes to one of five things: it names a capability that was not agreed, or that is not
-- known, and is counted as ignored; it does not parse, which is a protocol error and changes nothing;
-- it answers an earlier frame than the latest that was applied, and is counted as superseded; or it is
-- agreed, known, parsed and of no earlier frame, and is applied: it is what the consumer is handed and
-- what `latest` holds, and its frame is now the latest applied.
pub apply_cases :
    (env : Environment) (payload : Bytes) (now : ℕ) (s : SessionClient)
    → Applied env payload now s (apply env payload now s)
unfolding apply ignored
apply_cases env payload now s = elim (Option-cases (agreed s (capability_of env payload))) [
  | inl unknown ↦ rw unknown (not_agreed unknown refl)
  | inr (c, known) ↦ rw known (class_cases env payload now s c known _ refl)
]

unless_stale_lem :
    (settings : Settings) (last : Option FrameResult) (now : ℕ) (r : FrameResult)
    → (unless_stale settings last now ≡ some r)
      ↔ ((last ≡ some r) × (now - r.received_at < settings.staleness))
unfolding unless_stale
unless_stale_lem settings none now r = (λ h. cc, λ h. cc (h.0))
unless_stale_lem settings (some q) now r =
    elim (Bool-cases (leb settings.staleness (now - q.received_at))) [
      | inl stale ↦ rw stale (
        λ h. cc,
        λ h.
            let recent : now - q.received_at < settings.staleness =
              subst (λ f. now - f.received_at < settings.staleness) (sym (some-injective q r h.0))
                h.1 in
            absurd (ground arith),
      )
      | inr fresh ↦ rw fresh (
        λ h. (
          h,
          subst (λ f. now - f.received_at < settings.staleness) (some-injective q r h)
              (ground arith),
        ),
        λ h. h.0,
      )
    ]

-- What `latest` returns is exactly the last result that was applied, while it was received less than
-- the staleness window ago.
latest_iff :
    (settings : Settings) (now : ℕ) (s : SessionClient) (r : FrameResult)
    → (latest settings now s ≡ some r)
      ↔ ((s.latest_result ≡ some r) × (now - r.received_at < settings.staleness))
unfolding latest
latest_iff settings now s r = unless_stale_lem settings s.latest_result now r
