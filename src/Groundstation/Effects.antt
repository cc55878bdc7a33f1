-- ===== src/Groundstation/Effects.antt =====
-- The state that a session shares with its pipeline (session/runner.py and pipeline/runner.py of
-- services/groundstation), and code over it that sends, counts and raises.
use reachy.Prelude.{String, List, [], ◌∷◌, ◌++◌, Result, ok, err}
use reachy.Link.Contract.{ErrorCode}
use reachy.Link.Framing.{MessageKind}
use reachy.Groundstation.Feed.{FeedRegistry}
use reachy.Groundstation.Transport.{Wire, Stop, WireMessage, send}

-- What a session shares with its pipeline. `errors` and `emitted` are the labels of the increments of
-- `errors_total` and `results_emitted_total`, in order.
pub record Shared : Type 0 where
  pub wire : Wire
  pub feed : FeedRegistry
  pub errors : List ErrorCode
  pub emitted : List String

abbrev pub M : Type 0 → Type 0
M A = Shared → Result Stop A × Shared

abbrev pub continue : {A B : Type 0} → Result Stop A → Shared → (A → M B) → Result Stop B × Shared
continue (ok a) s f = f a s
continue (err e) s f = (err e, s)

infixl 5 ◌>>=◌ ◌>>◌
abbrev pub ◌>>=◌ : {A B : Type 0} → M A → (A → M B) → M B
◌>>=◌ m f s = continue (m s).0 (m s).1 f

abbrev pub ◌>>◌ : {B : Type 0} → M (Unit {0}) → M B → M B
m >> k = m >>= λ _. k

abbrev pub lift : {A : Type 0} → Result Stop A → M A
lift r s = (r, s)

-- The session's `_send`, which is what a pipeline delivers by.
unfoldable pub deliver : MessageKind → WireMessage → M (Unit {0})
deliver kind message s =
    let (sent, wire) = send s.wire kind message in (sent, record s { wire = wire })

unfoldable pub count_error : ErrorCode → M (Unit {0})
count_error code s = (ok tt, record s { errors = s.errors ++ code ∷ [] })
