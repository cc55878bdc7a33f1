-- ===== src/Client/Life/Locking.antt =====
-- session.py of reachy_session_client: who holds the lock while a session is established.
use reachy.Prelude.{
  ◌≡◌, refl, Bool, true, false, not, ◌&&◌, Option, none, some, Result, ok, err, is_some, arith,
}
use reachy.Link.Contract.{SessionAgreement}
use reachy.Client.{
  Environment, Settings, SessionClient, FrameResult, ClientError, connection_failed, not_connected,
  protocol_error, unoffered, session_refused, offer_is_not_valid, other_error,
}
use reachy.Client.Opening.{attempted, connect_if, round_if, Attempt, returns, again, throws}
use reachy.Client.Life.{
  Life, Consumer, at_top, retrying, is_retrying, is_free, IsConsistent, listen, heard,
  after_attempt, called, begun,
}
use reachy.Client.Life.Keeping.{Keeps}
use reachy.Client.Life.Attempts.{connect_if-Keeps, round_if-Keeps, same-Keeps}

module _ (env : Environment) (settings : Settings) where
  -- Who establishes a session is alone with the lock.
  abbrev pub IsAlone : Bool → Bool → SessionClient → Type 0
  IsAlone connecting retries_now s =
      ((connecting && retries_now) ≡ false)
      × ((not connecting && not retries_now) ≡ false → s.transport ≡ none)

  pub moved :
      (l : Life) (s : SessionClient) (c : Consumer) (connecting : Bool)
      → Keeps settings l.client s
      → IsAlone connecting (is_retrying c) s
      → IsConsistent settings l
      → IsConsistent settings (record l { client = s; consumer = c; connecting = connecting })
  unfolding is_free
  moved l s c connecting k (apart, alone) v = record {
    sane = k.sane;
    numbered = k.numbered l.pending v.numbered;
    apart = apart;
    alone = alone;
    accounted = omega (arith, k.submitted, k.dropped, v.accounted);
  }

  -- A consumer that does not establish a session, before and after, has no part in who is alone.
  pub keeps_apart :
      (l : Life) (s : SessionClient) (c : Consumer)
      → is_retrying c ≡ false
      → (l.connecting ≡ true → s.transport ≡ none)
      → IsAlone l.connecting (is_retrying c) s
  keeps_apart l s c quiet alone = (ground arith, λ busy. alone (ground arith))

  pub connecting_holds_none :
      (l : Life) → IsConsistent settings l → l.connecting ≡ true → l.client.transport ≡ none
  unfolding is_free
  connecting_holds_none l v busy = v.alone (ground arith)

  pub retrying_holds_none :
      (l : Life) → IsConsistent settings l → l.consumer ≡ retrying → l.client.transport ≡ none
  unfolding is_free is_retrying
  retrying_holds_none l v busy = v.alone (ground arith)

  pub listen_is_quiet : (s : SessionClient) → is_retrying (listen s) ≡ false
  unfolding listen is_retrying
  listen_is_quiet s = ground arith

  pub heard_is_quiet : (r : Result ClientError (Option FrameResult)) → is_retrying (heard r) ≡ false
  unfolding heard is_retrying
  heard_is_quiet (ok r) = refl
  heard_is_quiet (err (connection_failed e)) = refl
  heard_is_quiet (err (not_connected e)) = refl
  heard_is_quiet (err (protocol_error e)) = refl
  heard_is_quiet (err (unoffered cs)) = refl
  heard_is_quiet (err (session_refused r e)) = refl
  heard_is_quiet (err offer_is_not_valid) = refl
  heard_is_quiet (err (other_error e)) = refl

  pub attempt_is_quiet : (a : Attempt) → is_retrying (after_attempt a) ≡ false
  unfolding after_attempt is_retrying
  attempt_is_quiet returns = refl
  attempt_is_quiet again = refl
  attempt_is_quiet (throws e) = refl

  pub called_on :
      (l : Life) (a : Option SessionAgreement)
      → l.client.agreement ≡ a
      → is_free l ≡ true
      → IsConsistent settings l
      → IsConsistent settings (called (connect_if a l.client) l)
  unfolding called connect_if is_free
  called_on l (some a) e free v = v
  called_on l none e free v =
      moved l _ l.consumer true (connect_if-Keeps env settings l.client none v.sane)
        (ground arith, λ busy. unfold attempted in ground (arith, v.sane.together)) v

  pub begun_on :
      (l : Life) (over up : Bool)
      → is_some l.client.transport ≡ up
      → is_free l ≡ true
      → IsConsistent settings l
      → IsConsistent settings (begun (round_if over up l.client) l)
  unfolding begun round_if is_free is_retrying
  begun_on l true up e free v =
      moved l l.client at_top l.connecting (same-Keeps env settings l.client v.sane)
        (ground arith, λ busy. absurd (ground arith)) v
  begun_on l false true e free v =
      moved l l.client at_top l.connecting (same-Keeps env settings l.client v.sane)
        (ground arith, λ busy. absurd (ground arith)) v
  begun_on l false false e free v =
      moved l _ retrying l.connecting (round_if-Keeps env settings false false l.client v.sane)
        (ground arith, λ busy. unfold attempted in ground arith) v
