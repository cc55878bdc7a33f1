-- ===== src/Groundstation/Session/Run/Outcome.antt =====
-- session/runner.py: what the parts of a whole session leave behind, on every path out of them, a
-- connection that fails at any send and an exception included.
use Prim.Native.String.{len}
use reachy.Prelude.{
  ℕ, suc, ◌≤◌, ◌≡◌, ◌≢◌, inl, inr, refl, ap, String, List, [], ◌∷◌, ◌++◌, Bool, true, false, Option,
  none, some, ltb, Result, ok, err, arith, Bool-cases,
}
use reachy.Link.Contract.{Bytes, Capability, SessionOffer, CloseReason, new_close}
use reachy.Link.Libraries.{offer_from_wire}
use reachy.Link.Framing.{MessageKind, offer, Raised, framing_error, escaped, decode_control}
use reachy.Groundstation.Queue
use reachy.Groundstation.Queue.{FrameQueue, BoundError}
use reachy.Groundstation.Feed.{enter_session, leave_session, settle, wake}
use reachy.Groundstation.Transport
use reachy.Groundstation.Transport.{Stop, transport_closed, raised, send}
use reachy.Groundstation.Registry.{CapabilityRegistry}
use reachy.Groundstation.Effects.{Shared, continue, lift, deliver, count_error}
use reachy.Groundstation.Pipeline.{Engine, AgreedCapability}
use reachy.Groundstation.Session.{
  Settings, Environment, Opening, arrives, timed_out, vanishes, text, binary, refuse, refused_offer,
  decoded_offer, parsed_offer, await_offer, authenticate, reject, credential_is_valid, agree,
}
use reachy.Groundstation.Session.Handshake.{valid_iff}
use reachy.Groundstation.Session.Pumping.{Turn}
use reachy.Groundstation.Session.Pumping.Accounts.{
  IsCounted, receive_frames-IsCounted, drain-IsCounted,
}
use reachy.Groundstation.Session.Run.{Carried, fresh, pump_on, pump, carry_agreed, carry}

-- The feed and the counted results are those of before.
abbrev pub IsUntouched : Shared → Shared → Type 0
IsUntouched s t = (t.feed ≡ s.feed) × (t.emitted ≡ s.emitted)

refuse-IsUntouched :
    (reason : CloseReason) (code : ℕ) (detail : String) (s : Shared)
    → IsUntouched s (refuse reason code detail s).1
unfolding refuse deliver send new_close Transport.close
refuse-IsUntouched reason code detail s = (ground arith, ground arith)

-- What the opening of a session comes to, whether or not the connection holds.
pub data Asked (env : Environment) (settings : Settings) (opening : Opening) (s : Shared)
    (r : Result Stop (Option SessionOffer) × Shared) : Type 0 where
  offered :
      (t : String) (payload : Bytes) (o : SessionOffer)
      → opening ≡ arrives (text t)
      → len t ≤ settings.max_message_bytes
      → decode_control env.json t ≡ ok (offer, payload)
      → offer_from_wire env.models payload ≡ ok o
      → r ≡ (ok (some o), s)
      → Asked env settings opening s r
  unoffered : (t : Shared) → IsUntouched s t → r ≡ (ok none, t) → Asked env settings opening s r
  stops :
      (e : Stop) (t : Shared) → IsUntouched s t → r ≡ (err e, t) → Asked env settings opening s r

module _ (env : Environment) (settings : Settings) (s : Shared) where
  continue-Asked :
      (opening : Opening) (r : Result Stop (Unit {0})) (t : Shared)
      → IsUntouched s t
      → Asked env settings opening s (continue r t (λ _. lift (ok none)))
  continue-Asked opening (ok _) t u = unoffered t u refl
  continue-Asked opening (err e) t u = stops e t u refl

  refused-Asked :
      (opening : Opening) (detail : String) → Asked env settings opening s (refused_offer detail s)
  unfolding refused_offer
  refused-Asked opening detail = continue-Asked opening _ _ (refuse-IsUntouched _ _ _ s)

  parsed-Asked :
      (t : String) (payload : Bytes) (r : Result String SessionOffer)
      → len t ≤ settings.max_message_bytes
      → decode_control env.json t ≡ ok (offer, payload)
      → offer_from_wire env.models payload ≡ r
      → Asked env settings (arrives (text t)) s (parsed_offer r s)
  unfolding parsed_offer
  parsed-Asked t payload (ok o) fits d e = offered t payload o refl fits d e refl
  parsed-Asked t payload (err summary) fits d e = refused-Asked _ _

  decoded-Asked :
      (t : String) (r : Result Raised (MessageKind × Bytes))
      → len t ≤ settings.max_message_bytes
      → decode_control env.json t ≡ r
      → Asked env settings (arrives (text t)) s (decoded_offer env.models r s)
  unfolding decoded_offer
  decoded-Asked t (err (framing_error e)) fits d = refused-Asked _ _
  decoded-Asked t (err (escaped class)) fits d = stops (raised class) s (refl, refl) refl
  decoded-Asked t (ok (offer, payload)) fits d =
      parsed-Asked t payload (offer_from_wire env.models payload) fits d refl
  decoded-Asked t (ok (MessageKind.agreement, payload)) fits d = refused-Asked _ _
  decoded-Asked t (ok (MessageKind.result, payload)) fits d = refused-Asked _ _
  decoded-Asked t (ok (MessageKind.error, payload)) fits d = refused-Asked _ _
  decoded-Asked t (ok (MessageKind.close, payload)) fits d = refused-Asked _ _

  pub await_offer-Asked :
      (opening : Opening) → Asked env settings opening s (await_offer env settings opening s)
  unfolding await_offer
  await_offer-Asked timed_out = refused-Asked _ _
  await_offer-Asked vanishes = stops transport_closed s (refl, refl) refl
  await_offer-Asked (arrives (binary b)) = refused-Asked _ _
  await_offer-Asked (arrives (text t)) =
      elim (Bool-cases (ltb settings.max_message_bytes (len t))) [
        | inl long ↦ rw long (refused-Asked _ _)
        | inr fits ↦ rw fits (decoded-Asked t (decode_control env.json t) (ground arith) refl)
      ]

-- What the check of the credential comes to.
pub data Checked (settings : Settings) (o : SessionOffer) (s : Shared)
    (r : Result Stop Bool × Shared) : Type 0 where
  accepted :
      settings.credential ≢ ""
      → o.credential ≡ settings.credential
      → r ≡ (ok true, s)
      → Checked settings o s r
  denied : (t : Shared) → IsUntouched s t → r ≡ (ok false, t) → Checked settings o s r
  stops : (e : Stop) (t : Shared) → IsUntouched s t → r ≡ (err e, t) → Checked settings o s r

continue-Checked :
    (settings : Settings) (o : SessionOffer) (s : Shared) (r : Result Stop (Unit {0})) (t : Shared)
    → IsUntouched s t
    → Checked settings o s (continue r t (λ _. lift (ok false)))
continue-Checked settings o s (ok _) t u = denied t u refl
continue-Checked settings o s (err e) t u = stops e t u refl

reject-Checked :
    (settings : Settings) (o : SessionOffer) (s : Shared) → Checked settings o s (reject s)
unfolding reject count_error
reject-Checked settings o s =
    let counted : Shared = record s { errors = s.errors ++ _ ∷ [] } in
    let (feed, emitted) = refuse-IsUntouched _ _ _ counted in
    continue-Checked settings o s _ _ (feed, emitted)

pub authenticate-Checked :
    (settings : Settings) (o : SessionOffer) (s : Shared)
    → Checked settings o s (authenticate settings o s)
unfolding authenticate
authenticate-Checked settings o s =
    elim (Bool-cases (credential_is_valid o.credential settings.credential)) [
      | inl valid ↦
          let (configured, same) = (valid_iff o.credential settings.credential).0 valid in
          rw valid (accepted configured same refl)
      | inr invalid ↦ rw invalid (reject-Checked settings o s)
    ]

-- The feed of a session that was entered, with the sessions it counts.
entered : (s : Shared) → (enter_session s.feed).sessions ≡ suc s.feed.sessions
unfolding enter_session settle wake
entered s = refl

-- What is carried while the feed counts this session: the count as it was, and the drops among the
-- frames received.
pub record IsCarried (sessions : ℕ) (r : Carried × Shared) : Type 0 where
  pub sessions_kept : r.1.feed.sessions ≡ sessions
  pub counted : r.0.dropped ≤ r.0.received

module _ (env : Environment) (settings : Settings) (engine : Engine) (turns : List Turn) where
  pump_on-IsCarried :
      (capabilities : List AgreedCapability) (agreed : List Capability) (s : Shared)
      (queue : Result BoundError FrameQueue)
      → Queue.new settings.queue_bound ≡ queue
      → IsCarried s.feed.sessions (pump_on env settings engine capabilities agreed turns s queue)
  unfolding pump_on Queue.new
  pump_on-IsCarried capabilities agreed s (err e) made = record {
    sessions_kept = refl;
    counted = omega arith;
  }
  pump_on-IsCarried capabilities agreed s (ok queue) made =
      let c : IsCounted s.feed.sessions (fresh s queue) = record {
        sessions_kept = refl;
        bounded = record { holds = ground arith; within = ground arith };
        counted = ground arith;
      } in
      let d =
        drain-IsCounted engine capabilities _
          (receive_frames-IsCounted env settings engine capabilities turns (fresh s queue) c) in
      record { sessions_kept = d.sessions_kept; counted = omega (arith, d.counted) }

  carry_agreed-IsCarried :
      (r : Result Stop (List AgreedCapability × List Capability) × Shared)
      → IsCarried r.1.feed.sessions (carry_agreed env settings engine turns r)
  unfolding carry_agreed pump
  carry_agreed-IsCarried (err e, s) = record { sessions_kept = refl; counted = omega arith }
  carry_agreed-IsCarried (ok (capabilities, agreed), s) =
      pump_on-IsCarried capabilities agreed s _ refl

  agree-feed :
      (registry : CapabilityRegistry) (o : SessionOffer) (s : Shared)
      → (agree registry o s).1.feed ≡ s.feed
  unfolding agree deliver send
  agree-feed registry o s = ground arith

  pub carry-IsCarried :
      (registry : CapabilityRegistry) (o : SessionOffer) (s : Shared)
      → IsCarried s.feed.sessions (carry env settings engine registry o turns s)
  unfolding carry leave_session settle wake
  carry-IsCarried registry o s =
      let inside : Shared = record s { feed = enter_session s.feed } in
      let c = carry_agreed-IsCarried (agree registry o inside) in
      record {
        sessions_kept = omega (
          arith,
          c.sessions_kept,
          ap (λ f. f.sessions) (agree-feed registry o inside),
          entered s,
        );
        counted = c.counted;
      }
