-- ===== src/Client/Agreement.antt =====
-- `_negotiate` of reachy_session_client's session.py, against `negotiate` of reachy_contracts.
use mathlib.Core.List.{Mem, mem-cons}
use mathlib.Core.Logic.Or
use reachy.Prelude.{
  ◌≡◌, refl, ap, subst, String, List, [], ◌∷◌, Bool, true, false, not, some, keep, Result, ok,
  arith, is_unique,
}
use reachy.Link.Contract.{
  Bytes, Capability, same_capability, SessionOffer, SessionAgreement, new_offer, new_agreement,
  names, ValidationError,
}
use reachy.Link.Contract
use reachy.Link.Contract.Negotiation.{
  IsAgreed, negotiate_agrees, any-same, reject_duplicate_names_lem,
}
use reachy.Link.Libraries.{agreement_from_wire}
use reachy.Link.Framing.{agreement}
use reachy.Client.{Environment, Settings, decode}
use reachy.Client.Opening.{Dial, not_offered, offered_only, offer, answered, exchanged, received}
use reachy.Client.Opening

same_value :
    {x y : SessionAgreement} {r : Result ValidationError SessionAgreement}
    → r ≡ ok x
    → r ≡ ok y
    → x ≡ y
same_value h k = cc

keep_nothing :
    (p : Capability → Bool) (cs : List Capability)
    → ((c : Capability) → Mem c cs → p c ≡ false)
    → keep p cs ≡ []
keep_nothing p [] h = refl
keep_nothing p (c ∷ cs) h =
    rw (h c (mem-cons.1 (Or.inl refl))) (keep_nothing p cs (λ d m. h d (mem-cons.1 (Or.inr m))))

-- An agreement in which no name stands twice passes its own validator.
unique_is_valid :
    (a : SessionAgreement)
    → is_unique (names a.capabilities) ≡ true
    → new_agreement a.capabilities ≡ ok a
unfolding new_agreement
unique_is_valid a h = rw (reject_duplicate_names_lem a.capabilities, h) refl

offer-capabilities :
    (settings : Settings) (o : SessionOffer)
    → offer settings ≡ ok o
    → o.capabilities ≡ settings.capabilities
unfolding offer new_offer
offer-capabilities settings o h = ground arith

offer-new_offer :
    (settings : Settings) (o : SessionOffer)
    → offer settings ≡ ok o
    → new_offer settings.credential settings.capabilities ≡ ok o
unfolding offer
offer-new_offer settings o h = ground arith

not_offered-empty :
    (settings : Settings) (a : SessionAgreement)
    → ((c : Capability) → Mem c a.capabilities → Mem c settings.capabilities)
    → not_offered settings a ≡ []
unfolding not_offered
not_offered-empty settings a h =
    keep_nothing _ a.capabilities (λ c m. ap not ((any-same c settings.capabilities).1 (h c m)))

accepted :
    (env : Environment) (settings : Settings) (a : SessionAgreement) (payload : Bytes)
    → env.models.agreement.from_wire payload ≡ ok a
    → is_unique (names a.capabilities) ≡ true
    → ((c : Capability) → Mem c a.capabilities → Mem c settings.capabilities)
    → answered env settings (ok (agreement, payload)) ≡ ok a
unfolding answered agreement_from_wire offered_only
accepted env settings a payload reads unique within =
    rw (reads, unique_is_valid a unique, not_offered-empty settings a within) refl

-- What the groundstation agrees to, the client accepts: if the client's offer is valid, the service's
-- negotiation of it gives an agreement, and the text that answers the client decodes to an agreement
-- that reads as that one, then the client's own handshake gives that agreement, whatever is supported.
pub agreement_is_accepted :
    (env : Environment) (settings : Settings) (supported : List Capability) (dial : Dial)
    (o : SessionOffer) (a : SessionAgreement) (message : String) (payload : Bytes)
    → offer settings ≡ ok o
    → Contract.negotiate o supported ≡ ok a
    → dial.sends ≡ true
    → dial.answers ≡ some message
    → decode env message ≡ ok (agreement, payload)
    → env.models.agreement.from_wire payload ≡ ok a
    → Opening.negotiate env settings dial ≡ ok a
unfolding Opening.negotiate exchanged received
agreement_is_accepted env settings supported dial o a message payload offers agrees sent came
      decodes reads =
    let (b, same, agreed) =
      negotiate_agrees settings.credential settings.capabilities o supported
        (offer-new_offer settings o offers) in
    let common : IsAgreed o supported a =
      subst (λ x. IsAgreed o supported x) (same_value same agrees) agreed in
    rw (offers, sent, came, decodes)
      (accepted env settings a payload reads common.unique (λ c m.
        subst (λ cs. Mem c cs) (offer-capabilities settings o offers) ((common.common c).0 m).0))
