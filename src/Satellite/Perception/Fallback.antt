-- ===== src/Satellite/Perception/Fallback.antt =====
-- perception_source.py of ha-satellite: when the robot's own detector takes over and gives way.
use reachy.Prelude.{
  ℕ, ◌-◌, ◌≤◌, ◌≡◌, refl, sym, ap, subst, ◌∙◌, List, [], ◌∷◌, Bool, true, false, not, Option, none,
  some, ltb, arith, if-cases,
}
use reachy.Satellite.Perception.{
  FallbackPerception, new, Call, returns, raises, Done, called, start_local, close_local,
  start_local_after, check_lost, since_or, close_local_after, check_recovered, check, turn,
}

-- One turn of the supervision: whether the session is up, the clock where it is read first and where it
-- is read again, and how a call of the local detector ends.
pub record Turn : Type 0 where
  pub connected : Bool
  pub first : ℕ
  pub now : ℕ
  pub local : Call

-- After the turns of a history, the newest of which stands first.
unfoldable pub after : ℕ → List Turn → FallbackPerception
after recovery_seconds [] = new recovery_seconds
after recovery_seconds (t ∷ ts) = turn t.connected t.first t.now t.local (after recovery_seconds ts)

-- The session was up in the newest turns, back to one that read the clock at `since`.
pub data UpSince (since : ℕ) : List Turn → Type 0 where
  begins :
      {t : Turn} {ts : List Turn} → t.connected ≡ true → t.first ≡ since → UpSince since (t ∷ ts)
  goes_on :
      {t : Turn} {ts : List Turn} → t.connected ≡ true → UpSince since ts → UpSince since (t ∷ ts)

-- What a turn leaves of the start of the session, and of the configuration.
abbrev Keeps : Option ℕ → ℕ → Done → Type 0
Keeps since seconds r = (r.1.connected_since ≡ since) × (r.1.recovery_seconds ≡ seconds)

recovered-Keeps :
    (now since : ℕ) (local : Call) (p : FallbackPerception)
    → Keeps p.connected_since p.recovery_seconds (check_recovered now since local p)
unfolding check_recovered close_local_after called
recovered-Keeps now since local p =
    if-cases (Keeps p.connected_since p.recovery_seconds) (not p.local_running) _ _
      (λ idle. (refl, refl))
      (λ running.
        if-cases (Keeps p.connected_since p.recovery_seconds) (ltb (now - since) p.recovery_seconds)
          _ _ (λ early. (refl, refl)) (λ late. closed local))
  where
    closed :
        (l : Call)
        → Keeps p.connected_since p.recovery_seconds
            (close_local_after l (called close_local (record p { local_running = false })))
    closed returns = (refl, refl)
    closed (raises e) = (refl, refl)

lost-Keeps :
    (local : Call) (p : FallbackPerception)
    → Keeps p.connected_since p.recovery_seconds (check_lost local p)
unfolding check_lost start_local_after called
lost-Keeps local p =
    if-cases (Keeps p.connected_since p.recovery_seconds) p.local_running _ _
      (λ running. (refl, refl)) (λ idle. started local)
  where
    started :
        (l : Call)
        → Keeps p.connected_since p.recovery_seconds (start_local_after l (called start_local p))
    started returns = (refl, refl)
    started (raises e) = (refl, refl)

-- The reading since when the session is up, after a check.
unfoldable since_after : Bool → ℕ → Option ℕ → Option ℕ
since_after true first since = some (since_or first since)
since_after false first since = none

check-Keeps :
    (connected : Bool) (first now : ℕ) (local : Call) (p : FallbackPerception)
    → Keeps
        (since_after connected first p.connected_since)
        p.recovery_seconds
        (check connected first now local p)
unfolding check since_after
check-Keeps true first now local p = recovered-Keeps now _ local _
check-Keeps false first now local p = lost-Keeps local _

after-UpSince :
    (seconds : ℕ) (ts : List Turn) (since : ℕ)
    → (after seconds ts).connected_since ≡ some since
    → UpSince since ts
unfolding after turn new since_after since_or
after-UpSince seconds [] since e = cc
after-UpSince seconds (t ∷ ts) since e =
    continued t ts since (after seconds ts).connected_since (after-UpSince seconds ts) t.connected
      refl (sym (check-Keeps t.connected t.first t.now t.local (after seconds ts)).0 ∙ e)
  where
    continued :
        (t : Turn) (ts : List Turn) (since : ℕ) (before : Option ℕ)
        → ((n : ℕ) → before ≡ some n → UpSince n ts)
        → (connected : Bool) → t.connected ≡ connected
        → since_after connected t.first before ≡ some since
        → UpSince since (t ∷ ts)
    continued t ts since none ih true c e = begins c cc
    continued t ts since (some n) ih true c e = goes_on c (ih since e)
    continued t ts since before ih false c e = cc

after-seconds : (seconds : ℕ) (ts : List Turn) → (after seconds ts).recovery_seconds ≡ seconds
unfolding after turn new
after-seconds seconds [] = refl
after-seconds seconds (t ∷ ts) =
    (check-Keeps t.connected t.first t.now t.local (after seconds ts)).1 ∙ after-seconds seconds ts

stopped :
    (connected : Bool) (first now : ℕ) (local : Call) (p : FallbackPerception)
    → p.local_running ≡ true
    → (check connected first now local p).1.local_running ≡ false
    → (connected ≡ true) × (p.recovery_seconds ≤ now - since_or first p.connected_since)
unfolding check check_lost check_recovered close_local_after start_local_after called
stopped true first now returns p running over = (refl, ground arith)
stopped true first now (raises e) p running over = (refl, ground arith)
stopped false first now returns p running over = ground arith
stopped false first now (raises e) p running over = ground arith

covered :
    (connected : Bool) (first now : ℕ) (local : Call) (p : FallbackPerception)
    → connected ≡ false
    → local ≡ returns
    → (check connected first now local p).1.local_running ≡ true
unfolding check check_lost start_local_after called
covered true first now local p down works = cc
covered false first now returns p down works = ground arith
covered false first now (raises e) p down works = cc

-- How a history's newest turn ends.
pub record Switches (seconds : ℕ) (t : Turn) (ts : List Turn) : Type 0 where
  pub takes_over :
      t.connected ≡ false → t.local ≡ returns → (after seconds (t ∷ ts)).local_running ≡ true
  pub gives_way :
      (after seconds ts).local_running ≡ true
      → (after seconds (t ∷ ts)).local_running ≡ false
      → (since : ℕ) × UpSince since (t ∷ ts) × (seconds ≤ t.now - since)

-- After any turns, one that finds the session down and whose start of the local detector, if it makes
-- it, returns, leaves the local detector running; and one that stops the local detector finds the
-- session up, as did all turns before it back to one that read the clock `recovery_seconds` or more
-- before.
pub fallback-Switches : (seconds : ℕ) (t : Turn) (ts : List Turn) → Switches seconds t ts
unfolding after turn since_after
fallback-Switches seconds t ts = record {
  takes_over =
      λ down works. covered t.connected t.first t.now t.local (after seconds ts) down works;
  gives_way = λ running over.
      let p = after seconds ts in
      let since = since_or t.first p.connected_since in
      let (up, late) = stopped t.connected t.first t.now t.local p running over in
      let kept = (check-Keeps t.connected t.first t.now t.local p).0 in
      (
        since,
        after-UpSince seconds (t ∷ ts) since
            (kept ∙ ap (λ b. since_after b t.first p.connected_since) up),
        subst (λ n. n ≤ t.now - since) (after-seconds seconds ts) late,
      );
}
