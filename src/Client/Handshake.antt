-- ===== src/Client/Handshake.antt =====
-- `_establish` and `_negotiate` of reachy_session_client's session.py: what an attempt comes to.
use reachy.Prelude.{
  is_some, ◌||◌, ℕ, suc, ◌≡◌, refl, ap, subst, String, List, [], ◌∷◌, ◌++◌, Bool, true, false,
  Option, none, some, ◌==◌, length, if◌then◌else◌, Result, ok, err, ◌>>=◌, map_err, arith,
}
use reachy.Link.Contract.{Bytes, SessionOffer, SessionAgreement}
use reachy.Link.Libraries.{agreement_from_wire}
use reachy.Link.Framing.{MessageKind, agreement, close}
use reachy.Link.Framing
use reachy.Client.{Environment, Settings, SessionClient, ClientError, connection_failed, decode}
use reachy.Client.Opening.{
  Dial, not_offered, offered_only, offer, answered, exchanged, received, negotiate, negotiated,
  establish_on, attempted, finish_establish, connect_if, begin_connect, round_if, begin_round,
}

-- What the handshake met, if it came to an agreement.
pub record IsAnswered (env : Environment) (settings : Settings) (sends : Bool)
    (answers : Option String) (a : SessionAgreement) : Type 0 where
  pub message : String
  pub payload : Bytes
  pub went_out : sends ≡ true
  pub came : answers ≡ some message
  pub decodes : decode env message ≡ ok (agreement, payload)
  pub parses : agreement_from_wire env.models payload ≡ ok a
  pub within : not_offered settings a ≡ []

-- What an attempt to establish a session comes to, on the client as it is at the end.
pub data Established (env : Environment) (settings : Settings) (dial : Dial) (s : SessionClient)
    (r : Result ClientError SessionAgreement × SessionClient) : Type 0 where
  unopened :
      (message : String)
      → dial.opens ≡ none
      → r ≡ (err (connection_failed message), s)
      → Established env settings dial s r
  failed :
      (t : ℕ) (e : ClientError)
      → dial.opens ≡ some t
      → r ≡ (err e, record s { opened = s.opened ++ t ∷ []; hung_up = s.hung_up ++ t ∷ [] })
      → Established env settings dial s r
  opened :
      (t : ℕ) (a : SessionAgreement) (o : SessionOffer)
      → dial.opens ≡ some t
      → offer settings ≡ ok o
      → IsAnswered env settings dial.sends dial.answers a
      → r ≡ (
        ok a,
        record s {
          opened = s.opened ++ t ∷ [];
          transport = some t;
          agreement = some a;
          sequence = 0;
          highest_applied = none;
        },
      )
      → Established env settings dial s r

empty_list : {A : Type 0} (xs : List A) → (length xs == 0) ≡ true → xs ≡ []
empty_list [] h = refl
empty_list (x ∷ xs) h = absurd (ground arith)

chosen :
    (c : Bool) (a b : SessionAgreement) (e : ClientError)
    → (if c then ok a else err e) ≡ ok b
    → (c ≡ true) × (a ≡ b)
chosen true a b e h = (refl, cc)
chosen false a b e h = cc

module _ (env : Environment) (settings : Settings) where
  offered_only_lem :
      (a b : SessionAgreement)
      → offered_only settings a ≡ ok b
      → (a ≡ b) × (not_offered settings b ≡ [])
  unfolding offered_only
  offered_only_lem a b h =
      let (none_extra, same) = chosen (length (not_offered settings a) == 0) a b _ h in
      (same, subst (λ x. not_offered settings x ≡ []) same (empty_list _ none_extra))

  parsed_lem :
      (r : Result String SessionAgreement) (b : SessionAgreement) (g : String → ClientError)
      → (map_err g r >>= offered_only settings) ≡ ok b
      → (r ≡ ok b) × (not_offered settings b ≡ [])
  parsed_lem (err summary) b g h = cc
  parsed_lem (ok a) b g h = let (same, within) = offered_only_lem a b h in (ap ok same, within)

  answered-IsAnswered :
      (message : String) (r : Result ClientError (MessageKind × Bytes)) (b : SessionAgreement)
      → decode env message ≡ r
      → answered env settings r ≡ ok b
      → IsAnswered env settings true (some message) b
  unfolding answered
  answered-IsAnswered message (err e) b d h = cc
  answered-IsAnswered message (ok (close, payload)) b d h = cc
  answered-IsAnswered message (ok (Framing.MessageKind.offer, payload)) b d h = cc
  answered-IsAnswered message (ok (Framing.MessageKind.result, payload)) b d h = cc
  answered-IsAnswered message (ok (Framing.MessageKind.error, payload)) b d h = cc
  answered-IsAnswered message (ok (agreement, payload)) b d h =
      let (parses, within) = parsed_lem (agreement_from_wire env.models payload) b _ h in
      record {
        message = message;
        payload = payload;
        went_out = refl;
        came = refl;
        decodes = d;
        parses = parses;
        within = within;
      }

  exchanged-IsAnswered :
      (sends : Bool) (answers : Option String) (b : SessionAgreement)
      → exchanged env settings sends answers ≡ ok b
      → IsAnswered env settings sends answers b
  unfolding exchanged received
  exchanged-IsAnswered false answers b h = cc
  exchanged-IsAnswered true none b h = unfold answered in cc
  exchanged-IsAnswered true (some message) b h =
      answered-IsAnswered message (decode env message) b refl h

  offered_lem :
      (r : Result ClientError SessionOffer) (sends : Bool) (answers : Option String)
      (b : SessionAgreement)
      → (r >>= λ o. exchanged env settings sends answers) ≡ ok b
      → (o : SessionOffer) × (r ≡ ok o) × IsAnswered env settings sends answers b
  offered_lem (err e) sends answers b h = cc
  offered_lem (ok o) sends answers b h = (o, refl, exchanged-IsAnswered sends answers b h)

  negotiated-Established :
      (dial : Dial) (s : SessionClient) (t : ℕ) (r : Result ClientError SessionAgreement)
      → dial.opens ≡ some t
      → negotiate env settings dial ≡ r
      → Established env settings dial s (negotiated t (record s { opened = s.opened ++ t ∷ [] }) r)
  unfolding negotiated negotiate
  negotiated-Established dial s t (err e) opens h = failed t e opens refl
  negotiated-Established dial s t (ok a) opens h =
      let (o, offers, answered) = offered_lem (offer settings) dial.sends dial.answers a h in
      Established.opened t a o opens offers answered refl

  establish_on-Established :
      (dial : Dial) (s : SessionClient) (opens : Option ℕ)
      → dial.opens ≡ opens
      → Established env settings dial s (establish_on env settings dial opens s)
  unfolding establish_on
  establish_on-Established dial s none e = unopened _ e refl
  establish_on-Established dial s (some t) e = negotiated-Established dial s t _ e refl

-- The client with one more attempt counted.
abbrev pub counted : SessionClient → SessionClient
counted s = record s {
  stats = record s.stats { connection_attempts = suc s.stats.connection_attempts };
}

connect_if_lem :
    (a : Option SessionAgreement) (s : SessionClient)
    → connect_if a s ≡ (if is_some a then (a, s) else (none, counted (record s { closed = false })))
unfolding connect_if attempted
connect_if_lem none s = refl
connect_if_lem (some a) s = refl

round_if_lem :
    (shut up : Bool) (s : SessionClient)
    → round_if shut up s ≡ (if shut || up then (false, s) else (true, counted s))
unfolding round_if attempted
round_if_lem true up s = refl
round_if_lem false true s = refl
round_if_lem false false s = refl

-- `connect` returns the agreement held, if there is one, and otherwise reopens the client, counts an
-- attempt to establish a session and begins it; a round of the reconnection does nothing if the client
-- is closed or holds a connection, and otherwise counts an attempt and begins it. From whatever the
-- client has become when an attempt ends, it comes to one of three things: no connection opened, and
-- nothing changes; one opened and is closed again, with an error, and nothing else changes; or one
-- opened, the offer was valid and went out on it, and the text that came back decodes to an agreement
-- that parses and names only capabilities offered: then the client holds that connection under that
-- agreement, numbers frames from zero, and has no frame whose result was applied.
pub establish_cases :
    (env : Environment) (settings : Settings) (dial : Dial) (before after : SessionClient)
    → (begin_connect before ≡ (
        if is_some before.agreement
        then (before.agreement, before)
        else (none, counted (record before { closed = false }))))
      × (begin_round before ≡ (
          if before.closed || is_some before.transport
          then (false, before)
          else (true, counted before)))
      × Established env settings dial after (finish_establish env settings dial after)
unfolding finish_establish begin_connect begin_round
establish_cases env settings dial before after = (
  connect_if_lem before.agreement before,
  round_if_lem before.closed (is_some before.transport) before,
  establish_on-Established env settings dial after dial.opens refl,
)
