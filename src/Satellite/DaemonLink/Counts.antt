-- ===== src/Satellite/DaemonLink/Counts.antt =====
-- daemon_link.py of ha-satellite: what is reported after any calls.
use reachy.Prelude.{ℕ, ◌+◌, ◌≡◌, refl, ap, ◌∙◌, List, [], ◌∷◌, leb, arith, if◌then◌else◌}
use reachy.Satellite.DaemonLink.{
  counter_limit, DaemonLinkState, up, down, DaemonLink, new, count_one, record_success,
  outages_after, record_failure, DaemonCall, returns, refuses, raises, attempt_daemon_call,
  report_daemon_call,
}

-- A call through one of the two helpers.
pub data Use : Type 0 where
  attempts : DaemonCall (Unit {0}) → Use
  reports : DaemonCall (Unit {0}) → Use

unfoldable pub call_of : Use → DaemonCall (Unit {0})
call_of (attempts call) = call
call_of (reports call) = call

unfoldable pub used : Use → DaemonLink → DaemonLink
used (attempts call) link = (attempt_daemon_call call link).1
used (reports call) link = (report_daemon_call call link).1

unfoldable pub run : List Use → DaemonLink → DaemonLink
run [] link = link
run (u ∷ us) link = run us (used u link)

-- The calls that the link refused.
unfoldable pub refusal : DaemonCall (Unit {0}) → ℕ
refusal (refuses _) = 1
refusal _ = 0

unfoldable pub refusals : List Use → ℕ
refusals [] = 0
refusals (u ∷ us) = refusal (call_of u) + refusals us

-- The state after a call, and after all of them.
unfoldable pub state_after : DaemonCall (Unit {0}) → DaemonLinkState → DaemonLinkState
state_after (returns _) state = up
state_after (refuses _) state = down
state_after (raises _) state = state

unfoldable pub last_state : List Use → DaemonLinkState → DaemonLinkState
last_state [] state = state
last_state (u ∷ us) state = last_state us (state_after (call_of u) state)

-- How often the link goes from up to down.
unfoldable pub is_fall : DaemonLinkState → DaemonCall (Unit {0}) → ℕ
is_fall up (refuses _) = 1
is_fall _ _ = 0

unfoldable pub falls : List Use → DaemonLinkState → ℕ
falls [] state = 0
falls (u ∷ us) state = is_fall state (call_of u) + falls us (state_after (call_of u) state)

unfoldable pub saturated : ℕ → ℕ
saturated n = if leb n 9999 then n else 9999

-- The link after so many falls and refusals.
record Counts (fallen refused : ℕ) (last : DaemonLinkState) (link : DaemonLink) : Type 0 where
  state : link.state ≡ last
  outages : link.outages ≡ saturated fallen
  refused_calls : link.refused_calls ≡ saturated refused

used-Counts :
    (u : Use) (m n : ℕ) (last : DaemonLinkState) (link : DaemonLink)
    → Counts m n last link
    → Counts
        (m + is_fall last (call_of u))
        (n + refusal (call_of u))
        (state_after (call_of u) last)
        (used u link)
unfolding used attempt_daemon_call report_daemon_call record_success record_failure outages_after
    count_one counter_limit saturated is_fall call_of state_after refusal
used-Counts u m n last link c =
    let s = c.state in
    let o = c.outages in
    let r = c.refused_calls in
    record { state = ground arith; outages = ground arith; refused_calls = ground arith }

run-Counts :
    (us : List Use) (m n : ℕ) (last : DaemonLinkState) (link : DaemonLink)
    → Counts m n last link
    → Counts (m + falls us last) (n + refusals us) (last_state us last) (run us link)
unfolding run falls refusals last_state
run-Counts [] m n last link c = record {
  state = c.state;
  outages = c.outages ∙ ap saturated (omega arith);
  refused_calls = c.refused_calls ∙ ap saturated (omega arith);
}
run-Counts (u ∷ us) m n last link c =
    let rest = run-Counts us _ _ _ (used u link) (used-Counts u m n last link c) in
    record {
      state = rest.state;
      outages = rest.outages ∙ ap saturated (omega arith);
      refused_calls = rest.refused_calls ∙ ap saturated (omega arith);
    }

-- After any calls through either helper, the link is as the last call that did not raise anything else
-- left it, the calls reported as refused are those that the link refused, and the outages how often it
-- went from up to down, each up to 9999; another exception changes nothing of them.
pub link_counts :
    (us : List Use)
    → ((run us new).state ≡ last_state us up)
      × ((run us new).refused_calls ≡ saturated (refusals us))
      × ((run us new).outages ≡ saturated (falls us up))
unfolding new saturated
link_counts us =
    let c =
      run-Counts us 0 0 up new record { state = refl; outages = refl; refused_calls = refl } in
    let refused : 0 + refusals us ≡ refusals us = omega arith in
    let fallen : 0 + falls us up ≡ falls us up = omega arith in
    (c.state, c.refused_calls ∙ ap saturated refused, c.outages ∙ ap saturated fallen)
