-- ===== src/Client/Life/Soundness.antt =====
-- session.py of reachy_session_client, over the whole life of a client.
use reachy.Prelude.{
  ℕ, ◌≡◌, refl, ap, ◌∙◌, List, [], ◌∷◌, ◌++◌, Bool, true, false, Option, none, some, Result, ok,
  err, is_some, arith, Bool-cases, inl, inr,
}
use reachy.Link.Contract.{Bytes, FrameHeader}
use reachy.Link.Framing.{encode_frame, Raised}
use reachy.Client.{Environment, Settings, SessionClient, new, interpret}
use reachy.Client.Opening.{
  begin_connect, begin_close, finish_close, discard, hang_up, begin_round, finish_round, is_held,
  frame_dropped, begin_submit, finish_submit, submit_on, sending,
}
use reachy.Client.Life.{
  Life, losing, is_retrying, is_free, is_in, is_within, is_numbered, in_flight, IsSane,
  IsConsistent, Step, connects, connected, listens, hears, drops_out, loses, retries, retried,
  submits, delivers, closes, leaves, Reach, here, next, born, listen, lose, submitted,
}
use reachy.Client.Life.Keeping.{IsQuiet-Keeps, interpret-IsQuiet, discard-Keeps}
use reachy.Client.Life.Attempts.{
  finish_establish-Keeps, finish_round-Keeps, close_flag-Keeps, same-Keeps,
}
use reachy.Client.Life.Locking.{
  moved, keeps_apart, connecting_holds_none, retrying_holds_none, listen_is_quiet, heard_is_quiet,
  attempt_is_quiet, called_on, begun_on,
}

idle_flight : (p : Option (ℕ × FrameHeader)) → p ≡ none → in_flight p ≡ 0
unfolding in_flight
idle_flight none e = refl
idle_flight (some f) e = cc

idle_numbered :
    (p : Option (ℕ × FrameHeader)) (s : SessionClient) → p ≡ none → is_numbered p s ≡ true
unfolding is_numbered
idle_numbered none s e = refl
idle_numbered (some f) s e = cc

is_in-last : (ts : List ℕ) (t : ℕ) → is_in t (ts ++ t ∷ []) ≡ true
unfolding is_in
is_in-last [] t = ground arith
is_in-last (u ∷ ts) t = ground (arith, is_in-last ts t)

module _ (env : Environment) (settings : Settings) where
  held-is_in :
      (t : ℕ) (s : SessionClient)
      → s.transport ≡ some t
      → IsSane settings s
      → is_in t s.opened ≡ true
  unfolding hang_up
  held-is_in t s e sane = rw (sane.links, e) (is_in-last s.hung_up t)

  sent_on :
      (l : Life) (t : ℕ) (header : FrameHeader) (r : Result Raised Bytes)
      → l.client.transport ≡ some t
      → l.pending ≡ none
      → header.sequence ≡ l.client.sequence
      → IsConsistent settings l
      → IsConsistent settings (submitted (sending t header r, l.client) l)
  unfolding submitted sending in_flight is_numbered is_free
  sent_on l t header (err e) held idle same v = v
  sent_on l t header (ok message) held idle same v = record {
    sane = v.sane;
    numbered = ground (arith, held-is_in t l.client held v.sane);
    apart = v.apart;
    alone = v.alone;
    accounted = omega (arith, v.accounted, idle_flight l.pending idle);
  }

  -- A submission leaves the client as it was, but for the count of a frame that it drops.
  begin_on :
      (now : ℕ) (payload : Bytes) (l : Life) (transport : Option ℕ)
      → l.client.transport ≡ transport
      → l.pending ≡ none
      → IsConsistent settings l
      → IsConsistent settings (submitted (submit_on env now payload transport l.client) l)
  unfolding submit_on submitted frame_dropped is_free
  begin_on now payload l none e idle v = record {
    sane = record { together = v.sane.together; within = v.sane.within; links = v.sane.links };
    numbered = idle_numbered l.pending _ idle;
    apart = v.apart;
    alone = v.alone;
    accounted = omega (arith, v.accounted);
  }
  begin_on now payload l (some t) e idle v =
      let header : FrameHeader = record {
        sequence = l.client.sequence;
        captured_at = env.format now;
      } in
      sent_on l t header (encode_frame env.models.header header payload) e idle refl v

  -- The end of a submission: what is in flight is counted once, as submitted or as dropped.
  dropped_in_flight :
      (l : Life) (t : ℕ) (header : FrameHeader)
      → l.pending ≡ some (t, header)
      → IsConsistent settings l
      → IsConsistent settings (record l { client = frame_dropped l.client; pending = none })
  unfolding frame_dropped in_flight is_numbered is_free
  dropped_in_flight l t header p v = record {
    sane = record { together = v.sane.together; within = v.sane.within; links = v.sane.links };
    numbered = refl;
    apart = v.apart;
    alone = v.alone;
    accounted = omega (arith, v.accounted, ap in_flight p);
  }

  delivered :
      (l : Life) (t : ℕ) (header : FrameHeader) (through : Bool)
      → l.pending ≡ some (t, header)
      → IsConsistent settings l
      → IsConsistent settings
          (record l { client = (finish_submit t header through l.client).1; pending = none })
  unfolding finish_submit in_flight is_numbered is_free
  delivered l t header false p v = dropped_in_flight l t header p v
  delivered l t header true p v = elim (Bool-cases (is_held l.client.transport t)) [
    | inl held ↦ rw held (record {
      sane = record { together = v.sane.together; within = v.sane.within; links = v.sane.links };
      numbered = refl;
      apart = v.apart;
      alone = v.alone;
      accounted = omega (arith, v.accounted, ap in_flight p);
    })
    | inr gone ↦ rw gone (dropped_in_flight l t header p v)
  ]

  Step-IsConsistent :
      {l m : Life} → Step env settings l m → IsConsistent settings l → IsConsistent settings m
  unfolding begin_connect begin_close finish_close lose begin_submit begin_round is_free is_retrying
  Step-IsConsistent {l} (connects free) v = called_on env settings l l.client.agreement refl free v
  Step-IsConsistent {l} (connected dial busy fresh) v =
      moved env settings l _ l.consumer false
        (finish_establish-Keeps env settings dial l.client v.sane
          (connecting_holds_none env settings l v busy) fresh)
        (refl, λ h. absurd (ground (arith, v.apart))) v
  Step-IsConsistent {l} (listens e) v =
      moved env settings l l.client (listen l.client) l.connecting
        (same-Keeps env settings l.client v.sane)
        (keeps_apart env settings l l.client _ (listen_is_quiet env settings l.client)
          (connecting_holds_none env settings l v))
        v
  Step-IsConsistent {l} (hears now message e) v =
      let q = interpret-IsQuiet env now l.client message in
      moved env settings l _ _ l.connecting (IsQuiet-Keeps q v.sane)
        (keeps_apart env settings l (interpret env message now l.client).1 _
          (heard_is_quiet env settings (interpret env message now l.client).0)
          (λ busy. q.transport ∙ connecting_holds_none env settings l v busy))
        v
  Step-IsConsistent {l} (drops_out e) v =
      moved env settings l l.client losing l.connecting (same-Keeps env settings l.client v.sane)
        (keeps_apart env settings l l.client losing refl (connecting_holds_none env settings l v)) v
  Step-IsConsistent {l} (loses e free) v =
      moved env settings l _ _ l.connecting (discard-Keeps settings l.client v.sane)
        (keeps_apart env settings l (discard l.client) _ (ground arith)
          (λ busy. unfold discard in refl))
        v
  Step-IsConsistent {l} (retries e free) v =
      begun_on env settings l l.client.closed (is_some l.client.transport) refl free v
  Step-IsConsistent {l} (retried dial e fresh) v =
      moved env settings l _ _ l.connecting
        (finish_round-Keeps env settings dial l.client v.sane
          (retrying_holds_none env settings l v e) fresh)
        (keeps_apart env settings l (finish_round env settings dial l.client).1 _
          (attempt_is_quiet env settings (finish_round env settings dial l.client).0)
          (λ busy. absurd (ground (arith, v.apart))))
        v
  Step-IsConsistent {l} (submits now payload idle) v =
      begin_on now payload l l.client.transport refl idle v
  Step-IsConsistent {l} (delivers t header through p) v = delivered l t header through p v
  Step-IsConsistent {l} closes v =
      moved env settings l _ l.consumer l.connecting
        (close_flag-Keeps env settings l.client true v.sane) (v.apart, v.alone) v
  Step-IsConsistent {l} (leaves free) v =
      moved env settings l _ l.consumer l.connecting (discard-Keeps settings l.client v.sane)
        (v.apart, λ busy. unfold discard in refl) v

  pub Reach-IsConsistent :
      {l m : Life} → Reach env settings l m → IsConsistent settings l → IsConsistent settings m
  Reach-IsConsistent here v = v
  Reach-IsConsistent (next p st) v = Step-IsConsistent st (Reach-IsConsistent p v)

  born-IsConsistent : IsConsistent settings born
  unfolding new is_numbered in_flight is_within hang_up is_retrying
  born-IsConsistent = record {
    sane = record { together = refl; within = refl; links = refl };
    numbered = refl;
    apart = refl;
    alone = λ busy. refl;
    accounted = refl;
  }

-- Whatever the producer, the consumer, the link, the groundstation and the callers of `connect` and
-- `aclose` do, in any order, the client holds a connection exactly when it holds an agreement, which
-- names only capabilities that it offered; every connection it opened is the one it holds or was
-- closed, in the order of their opening; while a call of `connect` or the consumer establishes a session,
-- the other does not, and none is held; every frame handed to it without a framing error is counted
-- once, as submitted or as dropped, or is being sent; and a frame that is being sent on the connection
-- held carries the number of frames submitted on that connection so far.
pub client-IsConsistent :
    (env : Environment) (settings : Settings) (l : Life)
    → Reach env settings born l
    → IsConsistent settings l
client-IsConsistent env settings l p =
    Reach-IsConsistent env settings p (born-IsConsistent env settings)
