-- ===== src/Groundstation/Registry/Serving.antt =====
-- capabilities/registry.py: what the registry offers and routes to, against a description that
-- reads the factories alone.
use reachy.Prelude.{
  ℕ, zero, suc, ◌≡◌, refl, ap, sym, ◌∙◌, String, List, [], ◌∷◌, ◌++◌, true, false, Option, none,
  some, map, length, take, str_eq, eq_iff, is_member, is_unique, All, if◌then◌else◌, arith,
}
use reachy.Link.Contract.{Capability, names}
use reachy.Groundstation.Registry.{
  Built, makes, disables, fails, Factory, WarmUps, build, new, warm_entry, warm_entries, warming_up,
  warm_up, supported_entries, supported, get_entry, get,
}

-- What a factory comes to serve: the capability that it made, if the warm-up of it returns.
serves_built : WarmUps → Built → Option (ℕ × Capability)
serves_built warm_ups (makes handle c) = elim (warm_ups handle) [
  | none ↦ some (handle, c)
  | some _ ↦ none
]
serves_built warm_ups _ = none

pub served : WarmUps → List Factory → List (ℕ × Capability)
unfolding serves_built
served warm_ups [] = []
served warm_ups (f ∷ fs) =
    let rest = served warm_ups fs in
    elim (serves_built warm_ups f.builds) [ none ↦ rest | some s ↦ s ∷ rest ]

unfoldable pub descriptors : List (ℕ × Capability) → List Capability
descriptors [] = []
descriptors ((h, c) ∷ ss) = c ∷ descriptors ss

pub first_named : String → List (ℕ × Capability) → Option ℕ
first_named name [] = none
first_named name ((h, c) ∷ ss) = if str_eq c.name name then some h else first_named name ss

supported_unwarmed : (fs : List Factory) → supported_entries (map build fs) ≡ []
unfolding supported_entries build
supported_unwarmed [] = refl
supported_unwarmed (f ∷ fs) = ground (arith, supported_unwarmed fs)

supported_warmed :
    (warm_ups : WarmUps) (n : ℕ) (fs : List Factory)
    → supported_entries (warm_entries warm_ups n (map build fs))
      ≡ descriptors (served warm_ups (take n fs))
unfolding supported_entries build served descriptors warm_entries warm_entry
supported_warmed warm_ups zero fs = supported_unwarmed fs
supported_warmed warm_ups (suc n) [] = refl
supported_warmed warm_ups (suc n) (f ∷ fs) = ground (arith, supported_warmed warm_ups n fs)

get_unwarmed : (name : String) (fs : List Factory) → get_entry name (map build fs) ≡ none
unfolding get_entry build
get_unwarmed name [] = refl
get_unwarmed name (f ∷ fs) = ground (arith, get_unwarmed name fs)

get_warmed :
    (warm_ups : WarmUps) (n : ℕ) (name : String) (fs : List Factory)
    → get_entry name (warm_entries warm_ups n (map build fs))
      ≡ first_named name (served warm_ups (take n fs))
unfolding get_entry build served first_named warm_entries warm_entry
get_warmed warm_ups zero name fs = get_unwarmed name fs
get_warmed warm_ups (suc n) name [] = refl
get_warmed warm_ups (suc n) name (f ∷ fs) = ground (arith, get_warmed warm_ups n name fs)

take_all {ℓ} : {A : Type ℓ} (xs : List A) → take (length xs) xs ≡ xs
take_all [] = refl
take_all (x ∷ xs) = ap (◌∷◌ x) (take_all xs)

length-build : (fs : List Factory) → length (map build fs) ≡ length fs
length-build [] = refl
length-build (f ∷ fs) = ap suc (length-build fs)

-- After each round of the warm-up, the registry offers exactly the capabilities of the factories
-- passed so far that were made and whose warm-up returned, in registration order, and routes a name
-- to the first of those under that name; until the last round is over it is not ready.
warming_up_serves :
    (warm_ups : WarmUps) (fs : List Factory) (rounds : ℕ) (name : String)
    → let r = warming_up warm_ups rounds (new fs) in
      (supported r ≡ descriptors (served warm_ups (take rounds fs)))
      × (get r name ≡ first_named name (served warm_ups (take rounds fs)))
      × (r.is_ready ≡ false)
unfolding warming_up new supported get
warming_up_serves warm_ups fs rounds name =
    (supported_warmed warm_ups rounds fs, get_warmed warm_ups rounds name fs, refl)

-- Once the warm-up is over, however each capability turned out, the registry is ready, offers exactly the
-- capabilities that their factories made and whose warm-up returned, in the order of registration, and
-- routes a name to the first of those under that name.
pub warm_up_serves :
    (warm_ups : WarmUps) (fs : List Factory) (name : String)
    → let r = warm_up warm_ups (new fs) in
      (supported r ≡ descriptors (served warm_ups fs))
      × (get r name ≡ first_named name (served warm_ups fs))
      × (r.is_ready ≡ true)
unfolding warm_up new supported get
warm_up_serves warm_ups fs name =
    let all : take (length (map build fs)) fs ≡ fs = rw (length-build fs) (take_all fs) in
    let (offers, routes, _) = warming_up_serves warm_ups fs (length (map build fs)) name in
    (
      offers ∙ ap (λ gs. descriptors (served warm_ups gs)) all,
      routes ∙ ap (λ gs. first_named name (served warm_ups gs)) all,
      refl,
    )

served-append_failed :
    (warm_ups : WarmUps) (fs gs : List Factory) (f : Factory)
    → serves_built warm_ups f.builds ≡ none
    → served warm_ups (fs ++ f ∷ gs) ≡ served warm_ups (fs ++ gs)
unfolding served
served-append_failed warm_ups [] gs f h = ground arith
served-append_failed warm_ups (e ∷ fs) gs f h =
    ground (arith, served-append_failed warm_ups fs gs f h)

-- A factory fails to serve: it raised, it was switched off, or the warm-up of what it made raised or
-- overran.
pub data Fails (warm_ups : WarmUps) : Built → Type 0 where
  did_not_build : (fault : String) → Fails warm_ups (fails fault)
  switched_off : (name : String) → Fails warm_ups (disables name)
  did_not_warm :
      (handle : ℕ) (c : Capability) (fault : String)
      → warm_ups handle ≡ some fault
      → Fails warm_ups (makes handle c)

Fails-serves : (warm_ups : WarmUps) (b : Built) → Fails warm_ups b → serves_built warm_ups b ≡ none
unfolding serves_built
Fails-serves warm_ups _ (did_not_build fault) = refl
Fails-serves warm_ups _ (switched_off name) = refl
Fails-serves warm_ups _ (did_not_warm handle c fault h) = rw (h, serves_built)

-- A capability that fails to build, is switched off or fails to warm up changes nothing for the
-- others: what is offered and what each name is routed to are the same as if it had not been
-- registered.
pub failure_is_contained :
    (warm_ups : WarmUps) (fs gs : List Factory) (f : Factory) (name : String)
    → Fails warm_ups f.builds
    → let with_it = warm_up warm_ups (new (fs ++ f ∷ gs)) in
      let without = warm_up warm_ups (new (fs ++ gs)) in
      (supported with_it ≡ supported without) × (get with_it name ≡ get without name)
failure_is_contained warm_ups fs gs f name h =
    let same = served-append_failed warm_ups fs gs f (Fails-serves warm_ups f.builds h) in
    let (offers, routes, _) = warm_up_serves warm_ups (fs ++ f ∷ gs) name in
    let (offers', routes', _) = warm_up_serves warm_ups (fs ++ gs) name in
    (offers ∙ ap descriptors same ∙ sym offers', routes ∙ ap (first_named name) same ∙ sym routes')

abbrev Served : Type 0
Served = ℕ × Capability

not_named :
    (name : String) (ss : List Served)
    → is_member name (names (descriptors ss)) ≡ false
    → All (λ s. str_eq s.1.name name ≡ false) ss
unfolding is_member descriptors
not_named name [] m = tt
not_named name ((h, c) ∷ ss) m =
    ground (arith, eq_iff name c.name, eq_iff c.name name, not_named name ss)

module _ (h : ℕ) (c : Capability) (all : List Served) where
  routes_past :
      (ss : List Served)
      → All (λ s. str_eq s.1.name c.name ≡ false) ss
      → All (λ s. first_named s.1.name all ≡ some s.0) ss
      → All (λ s. first_named s.1.name ((h, c) ∷ all) ≡ some s.0) ss
  unfolding first_named
  routes_past [] other routes = tt
  routes_past ((k, d) ∷ ss) other routes = (
    ground (arith, other.0, routes.0, eq_iff d.name c.name, eq_iff c.name d.name),
    routes_past ss other.1 routes.1,
  )

-- Among capabilities served under different names, each name is routed to the capability whose
-- descriptor it is.
routes_own :
    (ss : List Served)
    → is_unique (names (descriptors ss)) ≡ true
    → All (λ s. first_named s.1.name ss ≡ some s.0) ss
unfolding descriptors
routes_own [] u = tt
routes_own ((h, c) ∷ ss) u =
    let fresh : is_member c.name (names (descriptors ss)) ≡ false = ground arith in
    let rest : is_unique (names (descriptors ss)) ≡ true = ground arith in
    (
      unfold first_named in ground (arith, eq_iff c.name c.name),
      routes_past h c ss ss (not_named c.name ss fresh) (routes_own ss rest),
    )
