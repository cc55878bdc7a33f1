-- ===== src/Client/Life/Closing.antt =====
-- session.py of reachy_session_client: the life of a client after `aclose`.
use reachy.Prelude.{
  ℕ, ◌≡◌, refl, sym, ap, ◌∙◌, ◌⊎◌, [], ◌∷◌, ◌++◌, Bool, true, false, ◌||◌, Option, none, some,
  Result, ok, err, is_some, arith, inl, inr,
}
use reachy.Link.Contract.{SessionAgreement}
use reachy.Client.{
  Environment, Settings, SessionClient, ClientError, connection_failed, not_connected,
  protocol_error, unoffered, session_refused, offer_is_not_valid, other_error, interpret,
}
use reachy.Client.Opening.{
  Dial, discard, begin_close, finish_close, Submission, drops, raises, sends, begin_submit,
  submit_on, negotiate, negotiated, establish_on, finish_establish, attempt_after, round_if,
  begin_round, finish_round,
}
use reachy.Client.Life.{
  Life, Consumer, at_top, losing, waiting, retrying, is_retrying, is_free, IsConsistent, Step,
  connects, connected, listens, hears, drops_out, loses, retries, retried, submits, delivers,
  closes, leaves, Reach, here, next, born, listen, lose, after_attempt, begun, submitted,
}
use reachy.Client.Life.Soundness.{client-IsConsistent, Reach-IsConsistent}
use reachy.Client.Life.Locking.{listen_is_quiet, heard_is_quiet, attempt_is_quiet}
use reachy.Client.Life.Untouched.{
  IsAsClosed, interpret-IsAsClosed, submit_on-IsAsClosed, finish_submit-IsAsClosed,
}

-- What became of a closed client: it is still closed; no attempt to establish a session is under way but
-- one that was; no connection was opened but by that attempt, which then is over; and if there was no
-- such attempt, and no connection was held, none is.
pub record StaysClosed (l m : Life) : Type 0 where
  pub still : m.client.closed ≡ true
  pub begun : is_free m ≡ false → is_free l ≡ false
  pub opened :
      (m.client.opened ≡ l.client.opened)
      ⊎ ((is_free l ≡ false)
          × (is_free m ≡ true)
          × ((t : ℕ) × (m.client.opened ≡ l.client.opened ++ t ∷ [])))
  pub held : is_free l ≡ true → l.client.transport ≡ none → m.client.transport ≡ none

-- A step that opens nothing, and after which the lock is as free as it was.
record Follows (m k : Life) : Type 0 where
  closed : m.client.closed ≡ true → k.client.closed ≡ true
  free : is_free k ≡ is_free m
  opened : k.client.opened ≡ m.client.opened
  held : m.client.transport ≡ none → k.client.transport ≡ none

StaysClosed-then : (l m k : Life) → StaysClosed l m → Follows m k → StaysClosed l k
StaysClosed-then l m k v w = record {
  still = w.closed v.still;
  begun = λ b. v.begun (sym w.free ∙ b);
  opened = elim v.opened [
    | inl same ↦ inl (w.opened ∙ same)
    | inr (busy, free, (t, e)) ↦ inr (busy, w.free ∙ free, (t, w.opened ∙ e))
  ];
  held = λ f h. w.held (v.held f h);
}

-- What the end of an attempt does to the connections.
data Opens (s t : SessionClient) : Type 0 where
  opens_none : t.opened ≡ s.opened → Opens s t
  opens_one : (u : ℕ) → t.opened ≡ s.opened ++ u ∷ [] → Opens s t

abbrev Ends : SessionClient → SessionClient → Type 0
Ends s t = (t.closed ≡ s.closed) × Opens s t

-- After the end of the attempt that was under way.
over :
    (l m k : Life)
    → StaysClosed l m
    → is_free m ≡ false
    → is_free k ≡ true
    → Ends m.client k.client
    → StaysClosed l k
over l m k v busy free (closed, opens) = record {
  still = closed ∙ v.still;
  begun = λ b. absurd (ground arith);
  opened = elim v.opened [
    | inl same ↦ elim opens [
      | opens_none e ↦ inl (e ∙ same)
      | opens_one u e ↦ inr (v.begun busy, free, (u, e ∙ ap (λ ts. ts ++ u ∷ []) same))
    ]
    | inr (b, f, te) ↦ absurd (ground arith)
  ];
  held = λ f h. let b = v.begun busy in absurd (ground arith);
}

submitted-Follows :
    (m : Life) (r : Submission × SessionClient)
    → IsAsClosed m.client (submitted r m).client
    → Follows m (submitted r m)
unfolding submitted is_free
submitted-Follows m (drops, s) k = record {
  closed = λ g. k.closed ∙ g;
  free = refl;
  opened = k.opened;
  held = λ g. k.transport ∙ g;
}
submitted-Follows m (raises e, s) k = record {
  closed = λ g. k.closed ∙ g;
  free = refl;
  opened = k.opened;
  held = λ g. k.transport ∙ g;
}
submitted-Follows m (sends t header message, s) k = record {
  closed = λ g. k.closed ∙ g;
  free = refl;
  opened = k.opened;
  held = λ g. k.transport ∙ g;
}

module _ (env : Environment) (settings : Settings) where
  abbrev pub is_call : {l m : Life} → Step env settings l m → Bool
  is_call (connects free) = true
  is_call _ = false

  -- Whether a call of `connect` takes the lock on the way.
  abbrev pub calls_connect : {l m : Life} → Reach env settings l m → Bool
  calls_connect here = false
  calls_connect (next p st) = let before = calls_connect p in is_call st || before

  negotiated-Opens :
      (t : ℕ) (s : SessionClient) (r : Result ClientError SessionAgreement)
      → Ends s (negotiated t (record s { opened = s.opened ++ t ∷ [] }) r).1
  unfolding negotiated
  negotiated-Opens t s (ok a) = (refl, opens_one t refl)
  negotiated-Opens t s (err e) = (refl, opens_one t refl)

  establish_on-Opens :
      (dial : Dial) (opens : Option ℕ) (s : SessionClient)
      → Ends s (establish_on env settings dial opens s).1
  unfolding establish_on
  establish_on-Opens dial none s = (refl, opens_none refl)
  establish_on-Opens dial (some t) s = negotiated-Opens t s (negotiate env settings dial)

  attempt_after-Opens :
      (s t : SessionClient) (r : Result ClientError SessionAgreement)
      → Ends s t
      → Ends s (attempt_after (r, t)).1
  unfolding attempt_after
  attempt_after-Opens s t (ok a) (c, opens_none e) = (c, opens_none e)
  attempt_after-Opens s t (ok a) (c, opens_one u e) = (c, opens_one u e)
  attempt_after-Opens s t (err (connection_failed e)) k = k
  attempt_after-Opens s t (err (not_connected e)) k = k
  attempt_after-Opens s t (err (protocol_error e)) k = k
  attempt_after-Opens s t (err (unoffered cs)) k = k
  attempt_after-Opens s t (err (session_refused r e)) k = k
  attempt_after-Opens s t (err offer_is_not_valid) k = k
  attempt_after-Opens s t (err (other_error e)) k = k

  connected-StaysClosed :
      (l m : Life) (dial : Dial)
      → IsConsistent settings m
      → m.connecting ≡ true
      → StaysClosed l m
      → StaysClosed l (record m {
        client = (finish_establish env settings dial m.client).1;
        connecting = false;
      })
  unfolding finish_establish is_free
  connected-StaysClosed l m dial c busy v =
      over l m _ v (ground arith) (ground (arith, c.apart))
        (establish_on-Opens dial dial.opens m.client)

  retried-StaysClosed :
      (l m : Life) (dial : Dial)
      → IsConsistent settings m
      → m.consumer ≡ retrying
      → StaysClosed l m
      → StaysClosed l (record m {
        consumer = after_attempt (finish_round env settings dial m.client).0;
        client = (finish_round env settings dial m.client).1;
      })
  unfolding finish_round finish_establish is_free is_retrying
  retried-StaysClosed l m dial c busy v =
      over l m _ v (ground arith)
        (ground (
          arith,
          c.apart,
          attempt_is_quiet env settings (finish_round env settings dial m.client).0,
        ))
        (attempt_after-Opens m.client (finish_establish env settings dial m.client).1 _
          (establish_on-Opens dial dial.opens m.client))

  -- A consumer that did not establish a session, and does not.
  quiet-Follows :
      (m : Life) (s : SessionClient) (c : Consumer)
      → IsAsClosed m.client s
      → is_retrying m.consumer ≡ false
      → is_retrying c ≡ false
      → Follows m (record m { client = s; consumer = c })
  unfolding is_free
  quiet-Follows m s c k before after = record {
    closed = λ h. k.closed ∙ h;
    free = ground arith;
    opened = k.opened;
    held = λ h. k.transport ∙ h;
  }

  round-Follows :
      (m : Life) (shut up : Bool)
      → shut ≡ true
      → m.consumer ≡ waiting
      → Follows m (begun (round_if shut up m.client) m)
  unfolding round_if begun is_retrying
  round-Follows m true up h e =
      quiet-Follows m m.client at_top (record { closed = refl; opened = refl; transport = refl })
        (ground arith) refl
  round-Follows m false up h e = cc

  Step-StaysClosed :
      {l m k : Life} (st : Step env settings m k)
      → is_call st ≡ false
      → IsConsistent settings m
      → StaysClosed l m
      → StaysClosed l k
  unfolding finish_close discard begin_close begin_submit begin_round lose is_retrying
  Step-StaysClosed (connects free) h c v = cc
  Step-StaysClosed {l} {m} (connected dial busy fresh) h c v =
      connected-StaysClosed l m dial c busy v
  Step-StaysClosed {l} {m} (listens e) h c v = StaysClosed-then l m _ v (
      quiet-Follows m m.client (listen m.client)
        (record { closed = refl; opened = refl; transport = refl }) (ground arith)
        (listen_is_quiet env settings m.client))
  Step-StaysClosed {l} {m} (hears now message e) h c v = StaysClosed-then l m _ v (
      quiet-Follows m _ _ (interpret-IsAsClosed env now m.client message) (ground arith)
        (heard_is_quiet env settings (interpret env message now m.client).0))
  Step-StaysClosed {l} {m} (drops_out e) h c v = StaysClosed-then l m _ v (
      quiet-Follows m m.client losing (record { closed = refl; opened = refl; transport = refl })
        (ground arith) refl)
  Step-StaysClosed {l} {m} (loses e free) h c v = StaysClosed-then l m _ v (record {
    closed = λ k. k;
    free = unfold is_free in ground arith;
    opened = refl;
    held = λ k. refl;
  })
  Step-StaysClosed {l} {m} (retries e free) h c v =
      StaysClosed-then l m _ v
        (round-Follows m m.client.closed (is_some m.client.transport) v.still e)
  Step-StaysClosed {l} {m} (retried dial e fresh) h c v = retried-StaysClosed l m dial c e v
  Step-StaysClosed {l} {m} (submits now payload e) h c v = StaysClosed-then l m _ v (
      submitted-Follows m (submit_on env now payload m.client.transport m.client)
        (submit_on-IsAsClosed env now m.client m payload m.client.transport))
  Step-StaysClosed {l} {m} (delivers t header through e) h c v =
      let k = finish_submit-IsAsClosed m.client t header through in
      StaysClosed-then l m _ v (record {
        closed = λ g. k.closed ∙ g;
        free = unfold is_free in refl;
        opened = k.opened;
        held = λ g. k.transport ∙ g;
      })
  Step-StaysClosed {l} {m} closes h c v =
      StaysClosed-then l m _ v
        (record { closed = λ g. refl; free = unfold is_free in refl; opened = refl; held = λ g. g })
  Step-StaysClosed {l} {m} (leaves free) h c v =
      StaysClosed-then l m _ v
        (record { closed = λ g. g; free = unfold is_free in refl; opened = refl; held = λ g. refl })

  Reach-StaysClosed :
      {l m : Life} (p : Reach env settings l m)
      → calls_connect p ≡ false
      → IsConsistent settings l
      → l.client.closed ≡ true
      → StaysClosed l m
  Reach-StaysClosed here h c shut = record {
    still = shut;
    begun = λ b. b;
    opened = inl refl;
    held = λ f k. k;
  }
  Reach-StaysClosed {l} (next p st) h c shut =
      Step-StaysClosed st (ground arith) (Reach-IsConsistent env settings p c)
        (Reach-StaysClosed p (ground arith) c shut)

-- From any reachable state where the client is closed, whatever the producer, the consumer with its
-- reconnections, the link and the callers of `aclose` do, in any order, for as long as no call of
-- `connect` gets the lock: the client stays closed, and begins no attempt to establish a session; it
-- opens no connection, unless an attempt was under way when it was closed, which opens one at most; and
-- if none was under way and no connection was held, as once `aclose` has returned, none is ever held.
pub closing_is_final :
    (env : Environment) (settings : Settings) (l m : Life) (p : Reach env settings l m)
    → Reach env settings born l
    → calls_connect env settings p ≡ false
    → l.client.closed ≡ true
    → StaysClosed l m
closing_is_final env settings l m p reached h shut =
    Reach-StaysClosed env settings p h (client-IsConsistent env settings l reached) shut
