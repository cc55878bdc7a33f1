-- ===== src/Client/Life/Attempts.antt =====
-- `connect`, `_reconnect` and the reading of a message, of session.py of reachy_session_client, and
-- the fields that a client's life depends on.
use reachy.Prelude.{ℕ, ◌≡◌, ◌∙◌, Bool, true, false, Option, none, some, Result, ok, err, arith}
use reachy.Link.Contract.{SessionAgreement}
use reachy.Client.{
  Environment, Settings, SessionClient, ClientError, connection_failed, not_connected,
  protocol_error, unoffered, session_refused, offer_is_not_valid, other_error,
}
use reachy.Client.Opening.{
  Dial, negotiate, establish_on, attempted, finish_establish, connect_if, round_if, attempt_after,
  finish_round,
}
use reachy.Client.Life.{is_fresh, IsSane}
use reachy.Client.Life.Keeping.{Keeps, IsQuiet-Keeps, negotiated-Keeps, negotiate-within}

Keeps-trans :
    {settings : Settings} {s t u : SessionClient}
    → Keeps settings s t
    → Keeps settings t u
    → Keeps settings s u
Keeps-trans f g = record {
  sane = g.sane;
  numbered = λ p h. g.numbered p (f.numbered p h);
  submitted = g.submitted ∙ f.submitted;
  dropped = g.dropped ∙ f.dropped;
}

module _ (env : Environment) (settings : Settings) where
  attempted-Keeps : (s : SessionClient) → IsSane settings s → Keeps settings s (attempted s)
  unfolding attempted
  attempted-Keeps s sane = IsQuiet-Keeps (ground arith) sane

  establish_on-Keeps :
      (dial : Dial) (opens : Option ℕ) (s : SessionClient)
      → IsSane settings s
      → s.transport ≡ none
      → is_fresh opens s.opened ≡ true
      → Keeps settings s (establish_on env settings dial opens s).1
  unfolding establish_on is_fresh
  establish_on-Keeps dial none s sane alone fresh = IsQuiet-Keeps (ground arith) sane
  establish_on-Keeps dial (some t) s sane alone fresh =
      negotiated-Keeps settings s t (negotiate env settings dial) sane alone (ground arith)
        (λ a h. negotiate-within settings env dial a h)

  pub finish_establish-Keeps :
      (dial : Dial) (s : SessionClient)
      → IsSane settings s
      → s.transport ≡ none
      → is_fresh dial.opens s.opened ≡ true
      → Keeps settings s (finish_establish env settings dial s).1
  unfolding finish_establish
  finish_establish-Keeps dial s sane alone fresh =
      establish_on-Keeps dial dial.opens s sane alone fresh

  pub close_flag-Keeps :
      (s : SessionClient) (flag : Bool)
      → IsSane settings s
      → Keeps settings s (record s { closed = flag })
  close_flag-Keeps s flag sane = IsQuiet-Keeps (ground arith) sane

  pub same-Keeps : (s : SessionClient) → IsSane settings s → Keeps settings s s
  same-Keeps s sane = IsQuiet-Keeps (ground arith) sane

  pub connect_if-Keeps :
      (s : SessionClient) (a : Option SessionAgreement)
      → IsSane settings s
      → Keeps settings s (connect_if a s).1
  unfolding connect_if attempted
  connect_if-Keeps s (some a) sane = same-Keeps s sane
  connect_if-Keeps s none sane = IsQuiet-Keeps (ground arith) sane

  attempt_after-Keeps :
      (s t : SessionClient) (r : Result ClientError SessionAgreement)
      → Keeps settings s t
      → Keeps settings s (attempt_after (r, t)).1
  unfolding attempt_after
  attempt_after-Keeps s t (ok a) k = Keeps-trans k (IsQuiet-Keeps (ground arith) k.sane)
  attempt_after-Keeps s t (err (connection_failed e)) k = k
  attempt_after-Keeps s t (err (not_connected e)) k = k
  attempt_after-Keeps s t (err (protocol_error e)) k = k
  attempt_after-Keeps s t (err (unoffered cs)) k = k
  attempt_after-Keeps s t (err (session_refused r e)) k = k
  attempt_after-Keeps s t (err offer_is_not_valid) k = k
  attempt_after-Keeps s t (err (other_error e)) k = k

  pub round_if-Keeps :
      (over up : Bool) (s : SessionClient)
      → IsSane settings s
      → Keeps settings s (round_if over up s).1
  unfolding round_if
  round_if-Keeps true up s sane = same-Keeps s sane
  round_if-Keeps false true s sane = same-Keeps s sane
  round_if-Keeps false false s sane = attempted-Keeps s sane

  pub finish_round-Keeps :
      (dial : Dial) (s : SessionClient)
      → IsSane settings s
      → s.transport ≡ none
      → is_fresh dial.opens s.opened ≡ true
      → Keeps settings s (finish_round env settings dial s).1
  unfolding finish_round
  finish_round-Keeps dial s sane alone fresh =
      attempt_after-Keeps s _ (finish_establish env settings dial s).0
        (finish_establish-Keeps dial s sane alone fresh)
