-- ===== src/Client/Life.antt =====
-- The life of a client between one producer of frames, one consumer of results and whoever opens and
-- closes it: every order of the stretches between their awaits.
pub mod Attempts
pub mod Closing
pub mod Keeping
pub mod Soundness
pub mod Locking
pub mod Untouched
use reachy.Prelude.{
  ℕ, suc, ◌+◌, ◌≡◌, refl, ap, ◌∙◌, String, List, [], ◌∷◌, ◌++◌, Bool, true, false, not, ◌&&◌, ◌||◌,
  Option, none, some, ◌==◌, any, keep, if◌then◌else◌, Result, ok, err, length, is_some, arith,
  Bool-cases, inl, inr, Option-cases,
}
use reachy.Link.Contract.{Bytes, SessionAgreement, FrameHeader}
use reachy.Client.{
  Environment, Settings, FrameResult, SessionClient, new, ClientError, connection_failed,
  not_connected, interpret, ignored, superseded, applied, apply_envelope,
}
use reachy.Client
use reachy.Client.Opening.{
  Dial, not_offered, negotiate, attempted, finish_establish, begin_connect, discard, begin_close,
  finish_close, frame_dropped, Submission, drops, raises, sends, begin_submit, finish_submit,
  is_held, hang_up, Attempt, returns, again, throws, begin_round, finish_round,
}

-- Where `results` is: at the top of its loop, awaiting a message, awaiting the lock to discard a session
-- that was lost, waiting out a delay and then the lock, establishing a session under the lock, or ended,
-- by a return or by an exception.
pub data Consumer : Type 0 where
  at_top hearing losing waiting retrying over : Consumer
  threw : ClientError → Consumer

unfoldable pub is_retrying : Consumer → Bool
is_retrying retrying = true
is_retrying _ = false

-- Whether a call of `connect` is establishing a session, under the lock; the frame whose send is awaited,
-- and on which connection; and how many frames were submitted, without a framing error.
pub record Life : Type 0 where
  pub client : SessionClient
  pub consumer : Consumer
  pub connecting : Bool
  pub pending : Option (ℕ × FrameHeader)
  pub calls : ℕ

-- Whether nobody holds the lock across an await that a session is established in.
unfoldable pub is_free : Life → Bool
is_free l = not l.connecting && not (is_retrying l.consumer)

-- The top of the loop, up to the await of `receive`.
unfoldable pub listen : SessionClient → Consumer
listen s =
    if s.closed
    then over
    else if is_some s.transport
    then hearing
    else threw (not_connected "no session is established; call connect first")

-- The start of `_reconnect`, under the lock: the session is discarded, and a delay is waited out unless
-- the client was closed.
unfoldable pub lose : SessionClient → Consumer × SessionClient
lose s = (if s.closed then at_top else waiting, discard s)

unfoldable pub heard : Result ClientError (Option FrameResult) → Consumer
heard (ok r) = at_top
heard (err (connection_failed e)) = losing
heard (err e) = threw e

-- A call of `connect` that has the lock.
unfoldable pub called : Option SessionAgreement × SessionClient → Life → Life
called (some a, s) l = record l { client = s }
called (none, s) l = record l { client = s; connecting = true }

-- A round of `_reconnect` that has the lock.
unfoldable pub begun : Bool × SessionClient → Life → Life
begun (true, s) l = record l { client = s; consumer = retrying }
begun (false, s) l = record l { client = s; consumer = at_top }

unfoldable pub after_attempt : Attempt → Consumer
after_attempt returns = at_top
after_attempt again = waiting
after_attempt (throws e) = threw e

unfoldable pub submitted : Submission × SessionClient → Life → Life
submitted (drops, s) l = record l { client = s; calls = suc l.calls }
submitted (raises e, s) l = record l { client = s }
submitted (sends t header message, s) l = record l {
  client = s;
  pending = some (t, header);
  calls = suc l.calls;
}

unfoldable pub is_in : ℕ → List ℕ → Bool
is_in t ts = any (λ u. u == t) ts

-- A connection that opens is none of those before.
unfoldable pub is_fresh : Option ℕ → List ℕ → Bool
is_fresh none ts = true
is_fresh (some t) ts = not (is_in t ts)

pub data Step (env : Environment) (settings : Settings) (l : Life) : Life → Type 0 where
  connects : is_free l ≡ true → Step env settings l (called (begin_connect l.client) l)
  connected :
      (dial : Dial)
      → l.connecting ≡ true
      → is_fresh dial.opens l.client.opened ≡ true
      → Step env settings l (record l {
        client = (finish_establish env settings dial l.client).1;
        connecting = false;
      })
  listens : l.consumer ≡ at_top → Step env settings l (record l { consumer = listen l.client })
  hears :
      (now : ℕ) (message : String)
      → l.consumer ≡ hearing
      → Step env settings l (record l {
        consumer = heard (interpret env message now l.client).0;
        client = (interpret env message now l.client).1;
      })
  drops_out : l.consumer ≡ hearing → Step env settings l (record l { consumer = losing })
  loses :
      l.consumer ≡ losing
      → is_free l ≡ true
      → Step env settings l (record l { consumer = (lose l.client).0; client = (lose l.client).1 })
  retries :
      l.consumer ≡ waiting → is_free l ≡ true → Step env settings l (begun (begin_round l.client) l)
  retried :
      (dial : Dial)
      → l.consumer ≡ retrying
      → is_fresh dial.opens l.client.opened ≡ true
      → Step env settings l (record l {
        consumer = after_attempt (finish_round env settings dial l.client).0;
        client = (finish_round env settings dial l.client).1;
      })
  submits :
      (now : ℕ) (payload : Bytes)
      → l.pending ≡ none
      → Step env settings l (submitted (begin_submit env now payload l.client) l)
  delivers :
      (t : ℕ) (header : FrameHeader) (through : Bool)
      → l.pending ≡ some (t, header)
      → Step env settings l
          (record l { client = (finish_submit t header through l.client).1; pending = none })
  closes : Step env settings l (record l { client = begin_close l.client })
  leaves : is_free l ≡ true → Step env settings l (record l { client = finish_close l.client })

pub data Reach (env : Environment) (settings : Settings) (l : Life) : Life → Type 0 where
  here : Reach env settings l l
  next : {m k : Life} → Reach env settings l m → Step env settings m k → Reach env settings l k

abbrev pub born : Life
born = record { client = new; consumer = at_top; connecting = false; pending = none; calls = 0 }

-- Whether an agreement, if there is one, names only capabilities that were offered.
unfoldable pub is_within : Settings → Option SessionAgreement → Bool
is_within settings none = true
is_within settings (some a) = length (not_offered settings a) == 0

-- Whether the frame in flight, if there is one, went to a connection that was opened, and, if that is
-- the one held, carries the number of frames submitted on it.
unfoldable pub is_numbered : Option (ℕ × FrameHeader) → SessionClient → Bool
is_numbered none s = true
is_numbered (some (t, header)) s =
    is_in t s.opened && (not (is_held s.transport t) || header.sequence == s.sequence)

unfoldable pub in_flight : Option (ℕ × FrameHeader) → ℕ
in_flight none = 0
in_flight (some _) = 1

-- What the client keeps between steps.
pub record IsSane (settings : Settings) (s : SessionClient) : Type 0 where
  pub together : is_some s.transport ≡ is_some s.agreement
  pub within : is_within settings s.agreement ≡ true
  pub links : s.opened ≡ hang_up s.transport s.hung_up

pub record IsConsistent (settings : Settings) (l : Life) : Type 0 where
  pub sane : IsSane settings l.client
  pub numbered : is_numbered l.pending l.client ≡ true
  pub apart : (l.connecting && is_retrying l.consumer) ≡ false
  pub alone : is_free l ≡ false → l.client.transport ≡ none
  pub accounted :
      l.client.stats.frames_submitted + l.client.stats.frames_dropped + in_flight l.pending
      ≡ l.calls
