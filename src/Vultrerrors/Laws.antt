-- ===== src/Vultrerrors/Laws.antt =====
-- Each capture sees the responses of its own context, and no other.
use cluster_api_provider_vul.Base.{
  ℕ, zero, suc, ◌≡◌, refl, ◌<◌, Option, none, some, List, [], ◌∷◌, ◌++◌, length, ◌==◌, nat_eq,
  Option-cases, inl, inr, if◌then◌else◌, arith,
}
use cluster_api_provider_vul.Vultrerrors.{
  Heap, Context, load, store, capture, round_trips, last_status, captured_status,
}

-- The responses to the requests whose context reads the cell.
abbrev owned_by : ℕ → Context → Option ℕ → Option ℕ
owned_by c ctx res = elim ctx.capture_cell [ none ↦ none | some d ↦ if d == c then res else none ]

abbrev pub rounds_of : ℕ → List (Context × Option ℕ) → List (Option ℕ)
rounds_of c [] = []
rounds_of c ((ctx, res) ∷ more) = owned_by c ctx res ∷ rounds_of c more

load-store :
    (h : Heap) (c d v : ℕ) → c < length h → load (store h d v) c ≡ (if d == c then v else load h c)
load-store [] c d v lt = absurd (omega arith)
load-store (w ∷ h) zero zero v lt = refl
load-store (w ∷ h) zero (suc d) v lt = ground arith
load-store (w ∷ h) (suc c) zero v lt = ground arith
load-store (w ∷ h) (suc c) (suc d) v lt = ground (arith, load-store h c d v (omega arith))

length-store : (h : Heap) (d v : ℕ) → length (store h d v) ≡ length h
length-store [] d v = refl
length-store (w ∷ h) zero v = refl
length-store (w ∷ h) (suc d) v = ground (arith, length-store h d v)

load-round_trips :
    (rounds : List (Context × Option ℕ)) (h : Heap) (c : ℕ)
    → c < length h
    → load (round_trips rounds h) c ≡ last_status (load h c) (rounds_of c rounds)
unfolding round_trips
load-round_trips [] h c lt = refl
load-round_trips ((ctx, none) ∷ more) h c lt = ground (arith, load-round_trips more h c lt)
load-round_trips ((ctx, some s) ∷ more) h c lt = elim (Option-cases ctx.capture_cell) [
  | inl e ↦ ground (arith, load-round_trips more h c lt)
  | inr (d, e) ↦ ground (
    arith,
    load-store h c d s lt,
    load-round_trips more (store h d s) c (omega (arith, length-store h d s)),
  )
]

load-fresh : (h : Heap) → load (h ++ 0 ∷ []) (length h) ≡ 0
load-fresh [] = refl
load-fresh (v ∷ h) = load-fresh h

fresh-lt : (h : Heap) → length h < length (h ++ 0 ∷ [])
fresh-lt [] = omega arith
fresh-lt (v ∷ h) = omega (arith, fresh-lt h)

-- After `Capture`, whatever round trips follow, on this context and on others and in any order,
-- `status()` is the status of the last response to a request of this context, and 0 before one.
pub status-capture :
    (ctx : Context) (h : Heap) (rounds : List (Context × Option ℕ))
    → let ((own, cell), h') = capture ctx h in
      (own.capture_cell ≡ some cell)
      × (load (round_trips rounds h') cell ≡ captured_status (rounds_of cell rounds))
unfolding capture captured_status
status-capture ctx h rounds = (
  refl,
  ground (arith, load-round_trips rounds (h ++ 0 ∷ []) (length h) (fresh-lt h), load-fresh h),
)
