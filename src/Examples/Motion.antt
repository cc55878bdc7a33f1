-- ===== src/Examples/Motion.antt =====
-- The robot application: an enable of the antennas that the daemon confirms.
use reachy.Prelude.{
  is_member, ℕ, ◌≡◌, refl, ◌⊎◌, inl, [], ◌∷◌, true, false, none, some, String, All, suc,
}
use reachy.Satellite.Motors.{
  antennas, MotorEvidence, MotorConfirmation, confirmed, contradicted, motor_names, is_complete,
  physical_value, motor_identifier, is_allowed, all_members, ids_agree, all_identified,
  agreed_value, by_name, says, joined,
}
use reachy.Satellite.Motors.Evidence.{Names, IsEvidence, physical_value_lem}
use reachy.Satellite.Motors.Coordinator.{
  Coordinator, Reading, observed, with_group, is_idle, same_group, promote, promoted, request_if,
  note, appended, append_bounded, diagnostic_capacity, new, begin_command, request_terminal,
}
use reachy.Satellite.Motors.Operation.{
  Operation, Deferred, sets, free, created, preparing, asking, sampling, restoring, ending, returns,
  reserve, start, prepare, drain, answer, sample, commit, restore, finalize, set_answer, reserve_if,
  reserve_free, close_if, closes_at_once, if_current, policy_or, asks_first, fresh_report,
}
use reachy.Satellite.Motors.Runs.{
  started, Step, Steps, stays, goes, reserves, starts, prepares, drains, answers, samples, commits,
  restores, requests_terminal,
}
use reachy.Satellite.Motors.Safety.{IsSafe}
use reachy.Satellite.Motors.Safety.Reached.{motors-IsSafe, gate_opens_on_evidence, IsFinishedBy}
use reachy.Satellite.Motors.Safety.Promises.{
  quiet_while_asked, terminal-IsFinal, IsFinal, reserve_is_accepted,
}

abbrev on : String → ℕ → MotorEvidence
on name n = record { name = name; motor_id = some n; enabled = some true; error = none }

abbrev both_on : MotorConfirmation
both_on = record {
  acknowledged = true;
  outcome = confirmed;
  evidence = on "left_antenna" 18 ∷ on "right_antenna" 17 ∷ [];
}

both_say : physical_value both_on (motor_names antennas) false ≡ some true
unfolding physical_value motor_names is_allowed is_complete all_members is_member ids_agree
    all_identified agreed_value by_name says joined motor_identifier
both_say = refl

physical_value_lem_example :
    (both_on.acknowledged ≡ true)
    × ((both_on.outcome ≡ confirmed) ⊎ ((false ≡ true) × (both_on.outcome ≡ contradicted)))
    × Names (motor_names antennas) both_on.evidence
    × All (IsEvidence both_on.evidence true) (motor_names antennas)
physical_value_lem_example = physical_value_lem both_on (motor_names antennas) false true both_say

abbrev at : Reading
at = record { now = 7; interrupts = false; races = false }

abbrev op : Operation
op = record { group = antennas; requested = some true; generation = 1 }

abbrev c1 : Coordinator
c1 = (reserve free antennas (some true) at new).1

abbrev c2 : Coordinator
c2 = (start op c1).1

abbrev c3 : Coordinator
c3 = (prepare op (returns (returns none)) at c2).1

abbrev c4 : Coordinator
c4 = (drain op sets c3).1

abbrev d : Deferred
d = record { operation = op; actual = true; confirmation = both_on; changed = true }

abbrev c5 : Coordinator
c5 = (answer op sets both_on at at c4).1

abbrev c6 : Coordinator
c6 = (sample d (returns tt) at c5).1

abbrev c7 : Coordinator
c7 = (commit d (returns tt) at at at c6).1

abbrev c8 : Coordinator
c8 = (restore d (returns (returns tt)) at at at c7).1

asks_antennas : Steps started (asking op sets, c4)
unfolding prepare drain start reserve reserve_if reserve_free close_if closes_at_once if_current
    policy_or asks_first observed with_group new is_idle same_group
asks_antennas =
    goes
      (goes {b = (preparing op, c2)}
        (goes {b = (created op, c1)}
          (goes stays (reserves {p = free} {c = new} antennas (some true) at)) (starts {c = c1} op))
        (prepares {c = c2} op (returns (returns none)) at))
      (drains {c = c3} op sets (inl refl))

restores_antennas : Steps started (restoring d, c7)
unfolding restore finalize commit sample answer set_answer prepare drain start reserve reserve_if
    reserve_free close_if closes_at_once if_current policy_or asks_first observed with_group new
    is_idle same_group physical_value is_allowed is_complete is_member all_members motor_names
    ids_agree all_identified agreed_value says by_name joined motor_identifier promote promoted
    request_if note appended append_bounded diagnostic_capacity fresh_report
restores_antennas =
    goes
      (goes {b = (sampling d, c5)} (goes asks_antennas (answers {c = c4} op sets both_on at at))
        (samples {c = c5} d (returns tt) at))
      (commits {c = c6} d (returns tt) at at at)

motors-IsSafe_example : IsSafe (λ h. true) false (restoring d) c7
motors-IsSafe_example = motors-IsSafe (restoring d) c7 restores_antennas

gate_opens : Step (restoring d, c7) (ending op true, c8)
unfolding restore finalize commit sample answer set_answer prepare drain start reserve reserve_if
    reserve_free close_if closes_at_once if_current policy_or asks_first observed with_group new
    is_idle same_group physical_value is_allowed is_complete is_member all_members motor_names
    ids_agree all_identified agreed_value says by_name joined motor_identifier promote promoted
    request_if note appended append_bounded diagnostic_capacity fresh_report
gate_opens = restores {c = c7} d (returns (returns tt)) at at at

was_shut : (c7.groups antennas).gate_open ≡ false
unfolding restore finalize commit sample answer set_answer prepare drain start reserve reserve_if
    reserve_free close_if closes_at_once if_current policy_or asks_first observed with_group new
    is_idle same_group physical_value is_allowed is_complete is_member all_members motor_names
    ids_agree all_identified agreed_value says by_name joined motor_identifier promote promoted
    request_if note appended append_bounded diagnostic_capacity fresh_report
was_shut = refl

is_opened : (c8.groups antennas).gate_open ≡ true
unfolding restore finalize commit sample answer set_answer prepare drain start reserve reserve_if
    reserve_free close_if closes_at_once if_current policy_or asks_first observed with_group new
    is_idle same_group physical_value is_allowed is_complete is_member all_members motor_names
    ids_agree all_identified agreed_value says by_name joined motor_identifier promote promoted
    request_if note appended append_bounded diagnostic_capacity fresh_report
is_opened = refl

gate_opens_on_evidence_example : IsFinishedBy (restoring d) antennas
gate_opens_on_evidence_example =
    gate_opens_on_evidence (restoring d) (ending op true) c7 c8 antennas restores_antennas
      gate_opens was_shut is_opened

quiet_while_asked_example :
    ((c4.groups antennas).commands_inflight ≡ 0) × ((begin_command (λ g. true) c4).0 ≡ false)
quiet_while_asked_example = quiet_while_asked op sets c4 (λ g. true) asks_antennas refl

asks_to_stop : Steps started (asking op sets, request_terminal c4)
asks_to_stop = goes asks_antennas (requests_terminal {p = asking op sets} {c = c4})

terminal-IsFinal_example : IsFinal (request_terminal c4)
unfolding request_terminal
terminal-IsFinal_example =
    terminal-IsFinal (asking op sets, request_terminal c4) (asking op sets, request_terminal c4)
      asks_to_stop refl stays

reserve_is_accepted_example :
    (reserve free antennas (some true) at new).0
    ≡ created (record {
      group = antennas;
      requested = some true;
      generation = suc (new.groups antennas).generation;
    })
unfolding new
reserve_is_accepted_example = reserve_is_accepted new antennas (some true) at stays refl
