-- ===== src/Link/Contract/Negotiation.antt =====
-- session.py of reachy_contracts: what `negotiate` makes of an offer.
use mathlib.Core.List.{Mem, Mem-prop, Sublist, mem-cons, not-mem-nil}
use mathlib.Core.HLevel.{×_prop}
use mathlib.Core.List.Sublist
use mathlib.Core.Logic.Or
use reachy.Prelude.{
  ◌≡◌, ◌↔◌, inl, inr, refl, ap, ◌∙◌, String, List, [], ◌∷◌, Bool, true, false, keep, any, is_member,
  is_unique, true-prop, length-distinct, eq_iff, if◌then◌else◌, ok, err, arith, Bool-cases,
}
use reachy.Link.Contract.{
  Capability, same_capability, names, SessionOffer, SessionAgreement, reject_duplicate_names,
  new_offer, new_agreement, negotiate, named_more_than_once,
}

-- An offer or an agreement is made exactly when no name stands twice in it.
pub reject_duplicate_names_lem :
    (cs : List Capability)
    → reject_duplicate_names cs
      ≡ (if is_unique (names cs) then ok tt else err (named_more_than_once (names cs)))
unfolding reject_duplicate_names
reject_duplicate_names_lem cs = rw (length-distinct (names cs))

module _ (p : Capability → Bool) where
  member-keep :
      (x : String) (cs : List Capability)
      → is_member x (names cs) ≡ false
      → is_member x (names (keep p cs)) ≡ false
  unfolding is_member
  member-keep x [] h = refl
  member-keep x (c ∷ cs) h = ground (arith, member-keep x cs)

  is_unique-keep :
      (cs : List Capability) → is_unique (names cs) ≡ true → is_unique (names (keep p cs)) ≡ true
  is_unique-keep [] h = refl
  is_unique-keep (c ∷ cs) h = ground (arith, is_unique-keep cs, member-keep c.name cs)

  keep-sublist : (cs : List Capability) → Sublist (keep p cs) cs
  keep-sublist [] = Sublist.refl []
  keep-sublist (c ∷ cs) = elim (Bool-cases (p c)) [
    | inl yes_kept ↦ rw yes_kept (Sublist.cons-cons c (keep-sublist cs))
    | inr left_out ↦ rw left_out (Sublist.cons c (keep-sublist cs))
  ]

pub same_capability_iff : (a b : Capability) → (same_capability a b ≡ true) ↔ (a ≡ b)
unfolding same_capability
same_capability_iff a b = ground (arith, eq_iff a.name b.name)

-- The set that both sides speak, in the order of the offer.
pub record IsAgreed (offer : SessionOffer) (supported : List Capability) (a : SessionAgreement)
    : Type 0 where
  -- Exactly the capabilities that were offered and, at the same name and version, supported.
  pub common :
      (c : Capability) → Mem c a.capabilities ↔ (Mem c offer.capabilities × Mem c supported)
  pub ordered : Sublist a.capabilities offer.capabilities
  pub unique : is_unique (names a.capabilities) ≡ true

pub any-same :
    (c : Capability) (cs : List Capability) → (any (same_capability c) cs ≡ true) ↔ Mem c cs
any-same c [] = (λ e. cc, λ m. absurd (not-mem-nil m))
any-same c (d ∷ cs) = elim (Bool-cases (same_capability c d)) [
  | inl same ↦ rw same (λ _. mem-cons.1 (Or.inl ((same_capability_iff c d).0 same)), λ _. refl)
  | inr other ↦ rw other (
    λ h. mem-cons.1 (Or.inr ((any-same c cs).0 h)),
    λ m.
        Or.elim (true-prop _) (mem-cons.0 m) (λ e. cc (other, (same_capability_iff c d).1 e))
          (any-same c cs).1,
  )
]

mem-keep :
    (p : Capability → Bool) (c : Capability) (cs : List Capability)
    → Mem c (keep p cs) ↔ (Mem c cs × (p c ≡ true))
mem-keep p c [] = (λ m. absurd (not-mem-nil m), λ m. absurd (not-mem-nil m.0))
mem-keep p c (d ∷ cs) = elim (Bool-cases (p d)) [
  | inl stays ↦ rw stays (
    λ m.
        Or.elim (×_prop Mem-prop (true-prop _)) (mem-cons.0 m)
          (λ e. (mem-cons.1 (Or.inl e), ap p e ∙ stays))
          (λ r. let (m', q) = (mem-keep p c cs).0 r in (mem-cons.1 (Or.inr m'), q)),
    λ m.
        Or.elim Mem-prop (mem-cons.0 m.0) (λ e. mem-cons.1 (Or.inl e))
          (λ r. mem-cons.1 (Or.inr ((mem-keep p c cs).1 (r, m.1)))),
  )
  | inr goes ↦ rw goes (
    λ m. let (m', q) = (mem-keep p c cs).0 m in (mem-cons.1 (Or.inr m'), q),
    λ m.
        Or.elim Mem-prop (mem-cons.0 m.0) (λ e. cc (goes, m.1, ap p e))
          (λ r. (mem-keep p c cs).1 (r, m.1)),
  )
]

-- Negotiating a valid offer succeeds, whatever is supported, and agrees on exactly the capabilities
-- that are offered and supported at the same name and version, in the order of the offer, with no
-- name twice.
pub negotiate_agrees :
    (credential : String) (cs : List Capability) (offer : SessionOffer)
    (supported : List Capability)
    → new_offer credential cs ≡ ok offer
    → (a : SessionAgreement) × (negotiate offer supported ≡ ok a) × IsAgreed offer supported a
unfolding new_offer negotiate new_agreement
negotiate_agrees credential cs offer supported made =
    let both : Capability → Bool = λ c. any (same_capability c) supported in
    let fits : is_unique (names offer.capabilities) ≡ true =
      ground (arith, reject_duplicate_names_lem cs) in
    let still : is_unique (names (keep both offer.capabilities)) ≡ true =
      is_unique-keep both offer.capabilities fits in
    (
      record { capabilities = keep both offer.capabilities },
      rw (reject_duplicate_names_lem (keep both offer.capabilities), still),
      record {
        common = λ c. (
          λ m.
              let (m', q) = (mem-keep both c offer.capabilities).0 m in
              (m', (any-same c supported).0 q),
          λ m. (mem-keep both c offer.capabilities).1 (m.0, (any-same c supported).1 m.1),
        );
        ordered = keep-sublist both offer.capabilities;
        unique = still;
      },
    )
