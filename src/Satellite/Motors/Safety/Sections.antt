-- ===== src/Satellite/Motors/Safety/Sections.antt =====
-- motor_control.py of ha-satellite: the sections under the lock that every operation uses.
use reachy.Prelude.{
  ℕ, ◌≤◌, ◌-◌, ◌≡◌, refl, ap, Bool, true, false, some, ◌==◌, arith, length, if-cases, length-drop,
  if◌then◌else◌, List, [], ◌∷◌, ◌++◌,
}
use reachy.Satellite.Motors.{MotorGroup, head, body, antennas}
use reachy.Satellite.Motors.Coordinator.{
  Coordinator, GroupState, Reading, Report, same_group, with_group, closed_down, observed,
  request_if, append_bounded, diagnostic_capacity, appended, note, promoted, demoted, promote,
}
use reachy.Satellite.Motors.Operation.{Operation, Phase, if_current}
use reachy.Satellite.Motors.Safety.{IsSafeGroup, IsSafe}

pub with_group_lem :
    (P : MotorGroup → GroupState → Type 0) (g : MotorGroup) (s : GroupState) (c : Coordinator)
    → P g s
    → ((h : MotorGroup) → P h (c.groups h))
    → (h : MotorGroup) → P h ((with_group g s c).groups h)
unfolding with_group same_group
with_group_lem P head s c new old head = new
with_group_lem P head s c new old body = old body
with_group_lem P head s c new old antennas = old antennas
with_group_lem P body s c new old head = old head
with_group_lem P body s c new old body = new
with_group_lem P body s c new old antennas = old antennas
with_group_lem P antennas s c new old head = old head
with_group_lem P antennas s c new old body = old body
with_group_lem P antennas s c new old antennas = new

pub length-append_bounded : {A : Type 0} (xs : List A) (x : A) → length (append_bounded xs x) ≤ 32
unfolding append_bounded diagnostic_capacity
length-append_bounded xs x = omega (arith, length-drop (length (xs ++ x ∷ []) - 32) (xs ++ x ∷ []))

module _ (may_open : MotorGroup → Bool) (requested : Bool) where
  pub set_group :
      (p : Phase) (g : MotorGroup) (s : GroupState) (c : Coordinator)
      → IsSafe may_open requested p c
      → IsSafeGroup (may_open g) p c.is_terminal g s
      → IsSafe may_open requested p (with_group g s c)
  unfolding with_group
  set_group p g s c i new = record {
    groups =
        with_group_lem (λ h t. IsSafeGroup (may_open h) p c.is_terminal h t) g s c new i.groups;
    ended = i.ended;
    kept = i.kept;
    backed = i.backed;
  }

  pub closed_down-IsSafe :
      (p : Phase) (c : Coordinator)
      → c.terminal_requested ≡ true
      → IsSafe may_open requested p c
      → IsSafe may_open requested p (closed_down c)
  unfolding closed_down
  closed_down-IsSafe p c asked i = record {
    groups = λ h.
        let s = i.groups h in
        record {
          confirmed = λ o. ground arith;
          allowed = λ o. ground arith;
          closed = λ o. refl;
          bounded = s.bounded;
          rests = λ o. ground arith;
          works = λ o. ground arith;
          current = λ o. ground arith;
          quiet = s.quiet;
        };
    ended = λ o. asked;
    kept = i.kept;
    backed = i.backed;
  }

  pub observed-IsSafe :
      {A : Type 0} (Q : A → Type 0) (p : Phase) (over still : Coordinator → A) (c : Coordinator)
      → IsSafe may_open requested p c
      → ((d : Coordinator) → d.is_terminal ≡ true → IsSafe may_open requested p d → Q (over d))
      → (c.is_terminal ≡ false → c.terminal_requested ≡ false → Q (still c))
      → Q (observed over still c)
  unfolding observed closed_down
  observed-IsSafe {A} Q p over still c i x y =
      if-cases Q c.is_terminal _ _ (λ t. x c t i)
        (λ f.
          if-cases Q c.terminal_requested _ _
            (λ t. x (closed_down c) refl (closed_down-IsSafe p c t i)) (λ g. y f g))

  pub if_current-IsSafe :
      {A : Type 0} (Q : A → Type 0) (p : Phase) (op : Operation) (stale fresh : Coordinator → A)
      (c : Coordinator)
      → IsSafe may_open requested p c
      → ((d : Coordinator) → IsSafe may_open requested p d → Q (stale d))
      → (c.is_terminal ≡ false → Q (fresh c))
      → Q (if_current op stale fresh c)
  unfolding if_current
  if_current-IsSafe {A} Q p op stale fresh c i x y =
      observed-IsSafe Q p stale
        (λ d. if (d.groups op.group).generation == op.generation then fresh d else stale d) c i
        (λ d t j. x d j)
        (λ t calm.
          if-cases Q ((c.groups op.group).generation == op.generation) _ _ (λ same. y t)
            (λ other. x c i))

  pub request_if-IsSafe :
      (b : Bool) (p : Phase) (c : Coordinator)
      → IsSafe may_open requested p c
      → IsSafe may_open requested p (request_if b c)
  unfolding request_if
  request_if-IsSafe b p c i = record {
    groups = i.groups;
    ended = λ o. let e = i.ended o in ground arith;
    kept = λ o. let e = i.kept o in ground arith;
    backed = i.backed;
  }

  appended-IsSafe :
      (p : Phase) (g : MotorGroup) (r : Report) (now : ℕ) (c : Coordinator)
      → IsSafe may_open requested p c
      → IsSafe may_open requested p (appended g r now c)
  unfolding appended
  appended-IsSafe p g r now c i = set_group p g _ c i (
      let s = i.groups g in
      record {
        confirmed = s.confirmed;
        allowed = s.allowed;
        closed = s.closed;
        bounded = length-append_bounded _ _;
        rests = s.rests;
        works = s.works;
        current = s.current;
        quiet = s.quiet;
      })

  pub note-IsSafe :
      (p : Phase) (g : MotorGroup) (r : Report) (at : Reading) (c : Coordinator)
      → IsSafe may_open requested p c
      → IsSafe may_open requested p (note g r at c)
  unfolding note
  note-IsSafe p g r at c i =
      observed-IsSafe (IsSafe may_open requested p) p _ _ c i (λ d t j. j)
        (λ t calm.
          observed-IsSafe (IsSafe may_open requested p) p _ _ (request_if at.interrupts c)
            (request_if-IsSafe at.interrupts p c i) (λ d t j. j)
            (λ t calm. appended-IsSafe p g r at.now _ (request_if-IsSafe at.interrupts p c i)))

  promoted-IsSafe :
      (p : Phase) (g : MotorGroup) (actual gate : Bool) (now : ℕ) (c : Coordinator)
      → (gate ≡ true → (actual ≡ true) × (may_open g ≡ true))
      → c.is_terminal ≡ false
      → IsSafe may_open requested p c
      → IsSafe may_open requested p (promoted g actual gate now c)
  unfolding promoted
  promoted-IsSafe p g actual gate now c backed live i = set_group p g _ c i (
      let s = i.groups g in
      record {
        confirmed = λ o. ap some (backed o).0;
        allowed = λ o. (backed o).1;
        closed = λ o. cc;
        bounded = s.bounded;
        rests = s.rests;
        works = s.works;
        current = s.current;
        quiet = s.quiet;
      })

  demoted-IsSafe :
      (p : Phase) (g : MotorGroup) (before : GroupState) (c : Coordinator)
      → IsSafe may_open requested p c
      → IsSafe may_open requested p (demoted g before c)
  unfolding demoted
  demoted-IsSafe p g before c i = set_group p g _ c i (
      let s = i.groups g in
      record {
        confirmed = λ o. cc;
        allowed = λ o. cc;
        closed = λ o. refl;
        bounded = s.bounded;
        rests = s.rests;
        works = s.works;
        current = s.current;
        quiet = s.quiet;
      })

  pub promote-IsSafe :
      {A : Type 0} (Q : A → Type 0) (p : Phase) (g : MotorGroup) (actual gate : Bool) (at : Reading)
      (fails done : Coordinator → A) (c : Coordinator)
      → (gate ≡ true → (actual ≡ true) × (may_open g ≡ true))
      → IsSafe may_open requested p c
      → ((d : Coordinator) → IsSafe may_open requested p d → Q (fails d))
      → ((d : Coordinator) → d.is_terminal ≡ false → IsSafe may_open requested p d → Q (done d))
      → Q (promote g actual gate at fails done c)
  unfolding promote
  promote-IsSafe {A} Q p g actual gate at fails done c backed i x y =
      observed-IsSafe Q p _ _ c i (λ d t j. x d j)
        (λ live calm.
          let j = request_if-IsSafe at.interrupts p c i in
          observed-IsSafe Q p _ _ (request_if at.interrupts c) j (λ d t k. x d k)
            (λ live calm.
              let k = promoted-IsSafe p g actual gate at.now _ backed live j in
              let l = request_if-IsSafe at.races p _ k in
              observed-IsSafe Q p _ _ _ l (λ d t m. x _ (demoted-IsSafe p g _ d m))
                (λ live calm. y _ live l)))
