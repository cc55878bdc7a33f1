-- ===== src/Client/Life/Keeping.antt =====
-- session.py of reachy_session_client: what its operations do to the fields that its life depends
-- on.
use reachy.Prelude.{
  ℕ, ◌≡◌, refl, String, List, [], ◌∷◌, ◌++◌, true, false, Option, none, some, ◌==◌, Result, ok, err,
  is_some, arith, Bool-cases, inl, inr,
}
use reachy.Link.Contract.{Bytes, SessionAgreement, FrameHeader, ResultEnvelope, PayloadClass}
use reachy.Link.Framing.{MessageKind, result, error, close, agreement}
use reachy.Link.Framing
use reachy.Link.Libraries.{envelope_from_wire}
use reachy.Client.{
  Environment, Settings, SessionClient, ClientError, interpret, ignored, superseded, applied,
  apply_envelope, apply, apply_class, apply_parsed, interpret_decoded, decode, agreed,
  capability_of, is_older,
}
use reachy.Client.Opening.{
  Dial, offered_only, negotiate, negotiated, attempted, discard, hang_up, is_held, answered,
  exchanged, offer,
}
use reachy.Client.Life.{is_in, is_within, is_numbered, IsSane}

-- Nothing of what the client keeps was changed.
pub record IsQuiet (s t : SessionClient) : Type 0 where
  pub transport : t.transport ≡ s.transport
  pub settled : t.agreement ≡ s.agreement
  pub sequence : t.sequence ≡ s.sequence
  pub opened : t.opened ≡ s.opened
  pub hung_up : t.hung_up ≡ s.hung_up
  pub submitted : t.stats.frames_submitted ≡ s.stats.frames_submitted
  pub dropped : t.stats.frames_dropped ≡ s.stats.frames_dropped

-- From a client that is sane to one that is, with what is in flight numbered as it was, and the same
-- frames counted.
pub record Keeps (settings : Settings) (s t : SessionClient) : Type 0 where
  pub sane : IsSane settings t
  pub numbered : (p : Option (ℕ × FrameHeader)) → is_numbered p s ≡ true → is_numbered p t ≡ true
  pub submitted : t.stats.frames_submitted ≡ s.stats.frames_submitted
  pub dropped : t.stats.frames_dropped ≡ s.stats.frames_dropped

quiet-numbered :
    (s t : SessionClient) (p : Option (ℕ × FrameHeader))
    → IsQuiet s t
    → is_numbered p s ≡ true
    → is_numbered p t ≡ true
unfolding is_numbered
quiet-numbered s t none q h = refl
quiet-numbered s t (some (u, header)) q h = rw (q.transport, q.sequence, q.opened) h

pub IsQuiet-Keeps :
    {settings : Settings} {s t : SessionClient}
    → IsQuiet s t
    → IsSane settings s
    → Keeps settings s t
IsQuiet-Keeps {settings} {s} {t} q sane = record {
  sane = record {
    together = rw (q.transport, q.settled) sane.together;
    within = rw q.settled sane.within;
    links = rw (q.transport, q.opened, q.hung_up) sane.links;
  };
  numbered = λ p h. quiet-numbered s t p q h;
  submitted = q.submitted;
  dropped = q.dropped;
}

quiet : (s : SessionClient) → IsQuiet s s
quiet s = record {
  transport = refl;
  settled = refl;
  sequence = refl;
  opened = refl;
  hung_up = refl;
  submitted = refl;
  dropped = refl;
}

module _ (env : Environment) (now : ℕ) (s : SessionClient) where
  apply_envelope-IsQuiet : (e : ResultEnvelope) → IsQuiet s (apply_envelope env e now s).1
  unfolding apply_envelope superseded applied
  apply_envelope-IsQuiet e = elim (Bool-cases (is_older e.sequence s.highest_applied)) [
    | inl older ↦ rw older (ground arith)
    | inr newer ↦ rw newer (ground arith)
  ]

  apply_parsed-IsQuiet : (r : Result String ResultEnvelope) → IsQuiet s (apply_parsed env r now s).1
  unfolding apply_parsed
  apply_parsed-IsQuiet (ok e) = apply_envelope-IsQuiet e
  apply_parsed-IsQuiet (err summary) = quiet s

  apply_class-IsQuiet :
      (c : Option PayloadClass) (payload : Bytes) → IsQuiet s (apply_class env c payload now s).1
  unfolding apply_class ignored
  apply_class-IsQuiet none payload = ground arith
  apply_class-IsQuiet (some c) payload =
      apply_parsed-IsQuiet (envelope_from_wire env.models c payload)

  apply-IsQuiet : (payload : Bytes) → IsQuiet s (apply env payload now s).1
  unfolding apply ignored
  apply-IsQuiet payload = elim (Bool-cases (is_some (agreed s (capability_of env payload)))) [
    | inl known ↦ rw known (apply_class-IsQuiet _ payload)
    | inr unknown ↦ rw unknown (ground arith)
  ]

  interpret_decoded-IsQuiet :
      (r : Result ClientError (MessageKind × Bytes)) → IsQuiet s (interpret_decoded env r now s).1
  unfolding interpret_decoded
  interpret_decoded-IsQuiet (err e) = quiet s
  interpret_decoded-IsQuiet (ok (result, payload)) = apply-IsQuiet payload
  interpret_decoded-IsQuiet (ok (error, payload)) = ground arith
  interpret_decoded-IsQuiet (ok (close, payload)) = quiet s
  interpret_decoded-IsQuiet (ok (Framing.MessageKind.offer, payload)) = quiet s
  interpret_decoded-IsQuiet (ok (agreement, payload)) = quiet s

  pub interpret-IsQuiet : (message : String) → IsQuiet s (interpret env message now s).1
  unfolding interpret
  interpret-IsQuiet message = interpret_decoded-IsQuiet (decode env message)

is_in-differs : (ts : List ℕ) (t u : ℕ) → is_in u ts ≡ true → is_in t ts ≡ false → (t == u) ≡ false
unfolding is_in
is_in-differs [] t u h k = cc
is_in-differs (v ∷ ts) t u h k = ground (arith, is_in-differs ts t u)

is_in-more : (ts : List ℕ) (t u : ℕ) → is_in u ts ≡ true → is_in u (ts ++ t ∷ []) ≡ true
unfolding is_in
is_in-more [] t u h = cc
is_in-more (v ∷ ts) t u h = ground (arith, is_in-more ts t u)

module _ (settings : Settings) where
  discard-numbered :
      (s : SessionClient) (p : Option (ℕ × FrameHeader))
      → is_numbered p s ≡ true
      → is_numbered p (discard s) ≡ true
  unfolding is_numbered discard is_held
  discard-numbered s none h = refl
  discard-numbered s (some (u, header)) h = ground arith

  pub discard-Keeps : (s : SessionClient) → IsSane settings s → Keeps settings s (discard s)
  unfolding discard is_within hang_up
  discard-Keeps s sane = record {
    sane = record { together = refl; within = refl; links = sane.links };
    numbered = discard-numbered s;
    submitted = refl;
    dropped = refl;
  }

  -- A connection is opened only while none is held.
  negotiated-numbered :
      (s : SessionClient) (t : ℕ) (a : SessionAgreement) (p : Option (ℕ × FrameHeader))
      → is_in t s.opened ≡ false
      → is_numbered p s ≡ true
      → is_numbered p (negotiated t (record s { opened = s.opened ++ t ∷ [] }) (ok a)).1 ≡ true
  unfolding is_numbered negotiated is_held
  negotiated-numbered s t a none fresh h = refl
  negotiated-numbered s t a (some (u, header)) fresh h =
      ground (arith, is_in-differs s.opened t u, is_in-more s.opened t u)

  failed-numbered :
      (s : SessionClient) (t : ℕ) (e : ClientError) (p : Option (ℕ × FrameHeader))
      → is_numbered p s ≡ true
      → is_numbered p (negotiated t (record s { opened = s.opened ++ t ∷ [] }) (err e)).1 ≡ true
  unfolding is_numbered negotiated is_held
  failed-numbered s t e none h = refl
  failed-numbered s t e (some (u, header)) h = ground (arith, is_in-more s.opened t u)

  pub negotiated-Keeps :
      (s : SessionClient) (t : ℕ) (r : Result ClientError SessionAgreement)
      → IsSane settings s
      → s.transport ≡ none
      → is_in t s.opened ≡ false
      → ((a : SessionAgreement) → r ≡ ok a → is_within settings (some a) ≡ true)
      → Keeps settings s (negotiated t (record s { opened = s.opened ++ t ∷ [] }) r).1
  unfolding negotiated hang_up
  negotiated-Keeps s t (ok a) sane alone fresh within = record {
    sane = record { together = refl; within = within a refl; links = rw (sane.links, alone) };
    numbered = λ p h. negotiated-numbered s t a p fresh h;
    submitted = refl;
    dropped = refl;
  }
  negotiated-Keeps s t (err e) sane alone fresh within = record {
    sane = record {
      together = sane.together;
      within = sane.within;
      links = rw (sane.links, alone);
    };
    numbered = λ p h. failed-numbered s t e p h;
    submitted = refl;
    dropped = refl;
  }

  pub negotiate-within :
      (env : Environment) (dial : Dial) (a : SessionAgreement)
      → negotiate env settings dial ≡ ok a
      → is_within settings (some a) ≡ true
  unfolding negotiate exchanged answered offered_only is_within offer
  negotiate-within env dial a h = ground arith

  pub attempted-IsSane : (s : SessionClient) → IsSane settings s → IsSane settings (attempted s)
  unfolding attempted
  attempted-IsSane s sane = record {
    together = sane.together;
    within = sane.within;
    links = sane.links;
  }
