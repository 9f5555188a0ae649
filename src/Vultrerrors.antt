-- ===== src/Vultrerrors.antt =====
-- cloud/vultrerrors/vultrerrors.go: the HTTP status of a govultr call.
-- A captured `status` lives in a cell of a heap, since the context and the reading function share it.
pub mod Laws
use cluster_api_provider_vul.Base.{ℕ, zero, suc, Option, none, some, List, [], ◌∷◌, ◌++◌, length}

abbrev pub Heap : Type 0
Heap = List ℕ

-- The nearest value under `ctxKey`: the cell of the innermost capture.
pub record Context : Type 0 where
  pub capture_cell : Option ℕ

abbrev pub load : Heap → ℕ → ℕ
load [] c = 0
load (v ∷ h) zero = v
load (v ∷ h) (suc c) = load h c

abbrev pub store : Heap → ℕ → ℕ → Heap
store [] c v = []
store (w ∷ h) zero v = v ∷ h
store (w ∷ h) (suc c) v = w ∷ store h c v

-- `Capture`: the new context, and the cell that the function beside it reads.
pub capture : Context → Heap → (Context × ℕ) × Heap
capture ctx h = ((record { capture_cell = some (length h) }, length h), h ++ 0 ∷ [])

-- `Record`
record_status : Context → ℕ → Heap → Heap
record_status ctx status h = elim ctx.capture_cell [ none ↦ h | some c ↦ store h c status ]

-- `Transport.RoundTrip`, given the response of `Next`: its status, or none if it is nil.
pub round_trip : Context → Option ℕ → Heap → Heap
unfolding record_status
round_trip ctx none h = h
round_trip ctx (some status) h = record_status ctx status h

-- Round trips of several calls, in the order in which they happen.
pub round_trips : List (Context × Option ℕ) → Heap → Heap
unfolding round_trip
round_trips [] h = h
round_trips ((ctx, res) ∷ more) h = round_trips more (round_trip ctx res h)

-- What a call whose requests met these responses is told by its `status()`.
abbrev last_status : ℕ → List (Option ℕ) → ℕ
last_status old [] = old
last_status old (none ∷ more) = last_status old more
last_status old (some status ∷ more) = last_status status more

unfoldable pub captured_status : List (Option ℕ) → ℕ
captured_status rounds = last_status 0 rounds
