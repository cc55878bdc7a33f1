-- ===== src/Groundstation/Session/Run/Settled.antt =====
-- session/runner.py: how `SessionRunner.run` ends, its counters, and who was let in.
use Prim.Native.String.{len}
use reachy.Prelude.{
  ℕ, suc, ◌≤◌, ◌≡◌, ◌≢◌, ◌⊎◌, inl, inr, refl, ap, ◌∙◌, String, List, [], ◌∷◌, ◌++◌, Bool, Option,
  Result, ok, err, arith,
}
use reachy.Link.Contract.{Bytes, Capability, SessionOffer, CloseReason}
use reachy.Link.Libraries.{offer_from_wire}
use reachy.Link.Framing.{offer, decode_control}
use reachy.Groundstation.Transport.{Stop, transport_closed, raised}
use reachy.Groundstation.Registry.{CapabilityRegistry}
use reachy.Groundstation.Effects.{Shared}
use reachy.Groundstation.Pipeline.{Engine}
use reachy.Groundstation.Session.{Settings, Environment, Opening, arrives, text}
use reachy.Groundstation.Session.Pumping.{Turn}
use reachy.Groundstation.Session.Run.{
  World, SessionOutcome, finish, finished, stopped, after_carry, run_authenticated, run_opened,
  run_session, run,
}
use reachy.Groundstation.Session.Run.Outcome.{
  IsUntouched, Asked, offered, unoffered, await_offer-Asked, Checked, accepted, denied,
  authenticate-Checked, IsCarried, carry-IsCarried,
}
use reachy.Groundstation.Session.Run.Outcome

-- How a session ended, from a world to the next. The counters are compared with those of before.
pub data Settled (before : List CloseReason) (r : Result Stop SessionOutcome × World) : Type 0 where
  ended :
      (o : SessionOutcome)
      → r.0 ≡ ok o
      → r.1.sessions_total ≡ before ++ o.reason ∷ []
      → o.frames_dropped ≤ o.frames_received
      → Settled before r
  escaped :
      (class : String) → r.0 ≡ err (raised class) → r.1.sessions_total ≡ before → Settled before r

-- A session that was let in opened with a valid offer, in a text within the bound, that presents the
-- credential configured, which is not empty.
pub record IsLetIn (env : Environment) (settings : Settings) (opening : Opening) : Type 0 where
  pub message : String
  pub payload : Bytes
  pub presented : SessionOffer
  pub opens : opening ≡ arrives (text message)
  pub fits : len message ≤ settings.max_message_bytes
  pub decodes : decode_control env.json message ≡ ok (offer, payload)
  pub parses : offer_from_wire env.models payload ≡ ok presented
  pub configured : settings.credential ≢ ""
  pub matches : presented.credential ≡ settings.credential

-- What a session that was turned away comes to: an outcome with nothing agreed and no frame received,
-- or an exception.
pub data IsNothing (r : Result Stop SessionOutcome) : Type 0 where
  no_session : (o : SessionOutcome) → r ≡ ok o → o.agreed ≡ [] → o.frames_received ≡ 0 → IsNothing r
  no_outcome : (class : String) → r ≡ err (raised class) → IsNothing r

-- A session that was turned away touches neither the feed nor the counted results, and agrees on
-- nothing.
pub record IsTurnedAway (w : World) (r : Result Stop SessionOutcome × World) : Type 0 where
  pub untouched : IsUntouched w.shared r.1.shared
  pub nothing : IsNothing r.0

-- The counters of sessions and of the feed are back, and the session has ended or an exception left it.
pub record IsBalanced (w : World) (r : Result Stop SessionOutcome × World) : Type 0 where
  pub active : r.1.sessions_active ≡ w.sessions_active
  pub eligible : r.1.shared.feed.sessions ≡ w.shared.feed.sessions
  pub settled : Settled w.sessions_total r

stopped-Settled :
    (e : Stop) (agreed : List Capability) (received dropped : ℕ) (w : World)
    → dropped ≤ received
    → Settled w.sessions_total (stopped e agreed received dropped w)
unfolding stopped finished finish
stopped-Settled transport_closed agreed received dropped w h = ended _ refl refl h
stopped-Settled (raised class) agreed received dropped w h = escaped class refl refl

stopped-kept :
    (e : Stop) (agreed : List Capability) (received dropped : ℕ) (w : World)
    → ((stopped e agreed received dropped w).1.sessions_active ≡ w.sessions_active)
      × ((stopped e agreed received dropped w).1.shared ≡ w.shared)
unfolding stopped finished finish
stopped-kept transport_closed agreed received dropped w = (refl, refl)
stopped-kept (raised class) agreed received dropped w = (refl, refl)

stopped-IsNothing : (e : Stop) (w : World) → IsNothing (stopped e [] 0 0 w).0
unfolding stopped finished finish
stopped-IsNothing transport_closed w = no_session _ refl refl refl
stopped-IsNothing (raised class) w = no_outcome class refl

-- An end without a session.
stopped-IsBalanced :
    (e : Stop) (w : World) (s : Shared)
    → s.feed.sessions ≡ w.shared.feed.sessions
    → IsBalanced w (stopped e [] 0 0 (record w { shared = s }))
stopped-IsBalanced e w s same =
    let v : World = record w { shared = s } in
    let (active, shared) = stopped-kept e [] 0 0 v in
    record {
      active = active;
      eligible = ap (λ t. t.feed.sessions) shared ∙ same;
      settled = stopped-Settled e [] 0 0 v (omega arith);
    }

after_carry-IsBalanced :
    (r : Result Stop CloseReason) (agreed : List Capability) (received dropped : ℕ) (w : World)
    (s : Shared)
    → s.feed.sessions ≡ w.shared.feed.sessions
    → dropped ≤ received
    → IsBalanced w (
        after_carry
          (record { result = r; agreed = agreed; received = received; dropped = dropped })
          (record w { shared = s }))
unfolding after_carry finished finish
after_carry-IsBalanced (ok reason) agreed received dropped w s kept counted = record {
  active = refl;
  eligible = kept;
  settled = ended _ refl refl counted;
}
after_carry-IsBalanced (err e) agreed received dropped w s kept counted =
    let (active, shared) = stopped-kept e agreed received dropped (record w { shared = s }) in
    record {
      active = active;
      eligible = ap (λ t. t.feed.sessions) shared ∙ kept;
      settled = stopped-Settled e agreed received dropped (record w { shared = s }) counted;
    }

module _ (env : Environment) (settings : Settings) (engine : Engine) (registry : CapabilityRegistry)
    (turns : List Turn) (w : World) where
  authenticated-IsBalanced :
      (o : SessionOffer) (r : Result Stop Bool × Shared)
      → Checked settings o w.shared r
      → IsBalanced w (run_authenticated env settings engine registry o turns w r)
  unfolding run_authenticated finished finish
  authenticated-IsBalanced o r (accepted _ _ e) =
      let h = carry-IsCarried env settings engine turns registry o w.shared in
      rw e (after_carry-IsBalanced _ _ _ _ w _ h.sessions_kept h.counted)
  authenticated-IsBalanced o r (denied t (feed, _) e) = rw e (record {
    active = refl;
    eligible = ap (λ f. f.sessions) feed;
    settled = ended _ refl refl (omega arith);
  })
  authenticated-IsBalanced o r (Outcome.Checked.stops x t (feed, _) e) =
      rw e (stopped-IsBalanced x w t (ap (λ f. f.sessions) feed))

  opened-IsBalanced :
      (opening : Opening) (r : Result Stop (Option SessionOffer) × Shared)
      → Asked env settings opening w.shared r
      → IsBalanced w (run_opened env settings engine registry turns w r)
  unfolding run_opened finished finish
  opened-IsBalanced opening r (offered _ _ o _ _ _ _ e) =
      rw e (authenticated-IsBalanced o _ (authenticate-Checked settings o w.shared))
  opened-IsBalanced opening r (unoffered t (feed, _) e) = rw e (record {
    active = refl;
    eligible = ap (λ f. f.sessions) feed;
    settled = ended _ refl refl (omega arith);
  })
  opened-IsBalanced opening r (Outcome.Asked.stops x t (feed, _) e) =
      rw e (stopped-IsBalanced x w t (ap (λ f. f.sessions) feed))

  stopped-IsTurnedAway :
      (e : Stop) (s : Shared)
      → IsUntouched w.shared s
      → IsTurnedAway w (stopped e [] 0 0 (record w { shared = s }))
  stopped-IsTurnedAway e s (feed, emitted) =
      let (_, shared) = stopped-kept e [] 0 0 (record w { shared = s }) in
      record {
        untouched = (ap (λ t. t.feed) shared ∙ feed, ap (λ t. t.emitted) shared ∙ emitted);
        nothing = stopped-IsNothing e _;
      }

  authenticated_cases :
      (opening : Opening) (t : String) (payload : Bytes) (o : SessionOffer)
      → opening ≡ arrives (text t)
      → len t ≤ settings.max_message_bytes
      → decode_control env.json t ≡ ok (offer, payload)
      → offer_from_wire env.models payload ≡ ok o
      → (r : Result Stop Bool × Shared) → Checked settings o w.shared r
      → IsLetIn env settings opening
        ⊎ IsTurnedAway w (run_authenticated env settings engine registry o turns w r)
  unfolding run_authenticated finished finish
  authenticated_cases opening t payload o opens fits decodes parses r
        (accepted configured matches e) =
      inl (record {
        message = t;
        payload = payload;
        presented = o;
        opens = opens;
        fits = fits;
        decodes = decodes;
        parses = parses;
        configured = configured;
        matches = matches;
      })
  authenticated_cases opening t payload o opens fits decodes parses r (denied s u e) =
      rw e (inr (record { untouched = u; nothing = no_session _ refl refl refl }))
  authenticated_cases opening t payload o opens fits decodes parses r
        (Outcome.Checked.stops x s u e) =
      rw e (inr (stopped-IsTurnedAway x s u))

  opened_cases :
      (opening : Opening) (r : Result Stop (Option SessionOffer) × Shared)
      → Asked env settings opening w.shared r
      → IsLetIn env settings opening
        ⊎ IsTurnedAway w (run_opened env settings engine registry turns w r)
  unfolding run_opened finished finish
  opened_cases opening r (offered t payload o opens fits decodes parses e) = rw e (
      authenticated_cases opening t payload o opens fits decodes parses _
        (authenticate-Checked settings o w.shared))
  opened_cases opening r (unoffered s u e) =
      rw e (inr (record { untouched = u; nothing = no_session _ refl refl refl }))
  opened_cases opening r (Outcome.Asked.stops x s u e) = rw e (inr (stopped-IsTurnedAway x s u))

with_active-Settled :
    {before : List CloseReason} {r : Result Stop SessionOutcome × World} {active : ℕ}
    → Settled before r
    → Settled before (r.0, record r.1 { sessions_active = active })
with_active-Settled (ended o e total counted) = ended o e total counted
with_active-Settled (escaped class e total) = escaped class e total

-- On every path out of a session, whether sends go through or not and whether an exception escapes or
-- not, the number of active sessions and the number of sessions the feed counts are what they were
-- before it. Either the session has an outcome, whose reason is then the one that was added to the
-- finished sessions, and whose dropped frames are among its received ones; or an exception that is not
-- a closed transport leaves it, and no finished session was added.
pub run-IsBalanced :
    (env : Environment) (settings : Settings) (engine : Engine) (registry : CapabilityRegistry)
    (opening : Opening) (turns : List Turn) (w : World)
    → IsBalanced w (run env settings engine registry opening turns w)
unfolding run run_session
run-IsBalanced env settings engine registry opening turns w =
    let v : World = record w { sessions_active = suc w.sessions_active } in
    let b =
      opened-IsBalanced env settings engine registry turns v opening _
        (await_offer-Asked env settings w.shared opening) in
    record {
      active = omega (arith, b.active);
      eligible = b.eligible;
      settled = with_active-Settled b.settled;
    }

-- Only a session that opened with a valid offer, in a text message within the size bound, that presents
-- the credential configured, which is not empty, changes the feed, has a result counted, agrees on a
-- capability or receives a frame: any other session leaves the feed and the counted results as they
-- were, and either its outcome has no agreed capability and no received frame, or an exception left
-- it.
pub run_lets_in :
    (env : Environment) (settings : Settings) (engine : Engine) (registry : CapabilityRegistry)
    (opening : Opening) (turns : List Turn) (w : World)
    → IsLetIn env settings opening
      ⊎ IsTurnedAway w (run env settings engine registry opening turns w)
unfolding run run_session
run_lets_in env settings engine registry opening turns w =
    let v : World = record w { sessions_active = suc w.sessions_active } in
    elim (opened_cases env settings engine registry turns v opening _
      (await_offer-Asked env settings w.shared opening)) [
        | inl good ↦ inl good
        | inr away ↦ inr (record { untouched = away.untouched; nothing = away.nothing })
      ]
