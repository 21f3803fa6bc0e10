-- ===== src/App/Prewarm/Handles.antt =====
-- How many handles of `prewarm` are in which state.
use vcl_rs.Base.{ℕ, zero, suc, ◌+◌, ◌≡◌, ◌⊎◌, inl, inr, refl, List, [], ◌∷◌, ◌++◌, ap, arith}
use vcl_rs.App.Prewarm.{Handle, spawned, started, completed, cancelled, spawn_all, end_all}

abbrev pub spawned_n : Handle → ℕ
spawned_n spawned = 1
spawned_n h = 0

abbrev pub started_n : Handle → ℕ
started_n started = 1
started_n h = 0

abbrev pub cancelled_n : Handle → ℕ
cancelled_n cancelled = 1
cancelled_n h = 0

abbrev pub completed_n : Handle → ℕ
completed_n completed = 1
completed_n h = 0

-- Not completed.
abbrev pub open_n : Handle → ℕ
open_n completed = 0
open_n h = 1

-- What a handle still has before it.
abbrev pub weight : Handle → ℕ
weight spawned = 3
weight started = 2
weight h = 1

unfoldable pub total : (Handle → ℕ) → List Handle → ℕ
total f [] = 0
total f (h ∷ hs) = f h + total f hs

pub total-split :
    (f : Handle → ℕ) (xs ys : List Handle) (h : Handle)
    → total f (xs ++ (h ∷ ys)) ≡ f h + total f (xs ++ ys)
unfolding total
total-split f [] ys h = refl
total-split f (x ∷ xs) ys h = let again = total-split f xs ys h in omega (arith, again)

pub total-spawn_all : (f : Handle → ℕ) → f spawned ≡ 0 → (n : ℕ) → total f (spawn_all n) ≡ 0
unfolding total spawn_all
total-spawn_all f e zero = refl
total-spawn_all f e (suc n) = let again = total-spawn_all f e n in omega (arith, e, again)

pub spawned_n-spawn_all : (n : ℕ) → total spawned_n (spawn_all n) ≡ n
unfolding total spawn_all
spawned_n-spawn_all zero = refl
spawned_n-spawn_all (suc n) = let again = spawned_n-spawn_all n in omega (arith, again)

pub open_n-end_all :
    (hs : List Handle) → total open_n (end_all hs) ≡ total spawned_n hs + total cancelled_n hs
unfolding total end_all
open_n-end_all [] = refl
open_n-end_all (spawned ∷ hs) = let again = open_n-end_all hs in omega (arith, again)
open_n-end_all (started ∷ hs) = let again = open_n-end_all hs in omega (arith, again)
open_n-end_all (completed ∷ hs) = let again = open_n-end_all hs in omega (arith, again)
open_n-end_all (cancelled ∷ hs) = let again = open_n-end_all hs in omega (arith, again)

pub weight-end_all :
    (hs : List Handle) → total weight (end_all hs) + total started_n hs ≡ total weight hs
unfolding total end_all
weight-end_all [] = refl
weight-end_all (spawned ∷ hs) = let again = weight-end_all hs in omega (arith, again)
weight-end_all (started ∷ hs) = let again = weight-end_all hs in omega (arith, again)
weight-end_all (completed ∷ hs) = let again = weight-end_all hs in omega (arith, again)
weight-end_all (cancelled ∷ hs) = let again = weight-end_all hs in omega (arith, again)

pub cancelled_n-end_all : (hs : List Handle) → total cancelled_n (end_all hs) ≡ total cancelled_n hs
unfolding total end_all
cancelled_n-end_all [] = refl
cancelled_n-end_all (spawned ∷ hs) = let again = cancelled_n-end_all hs in omega (arith, again)
cancelled_n-end_all (started ∷ hs) = let again = cancelled_n-end_all hs in omega (arith, again)
cancelled_n-end_all (completed ∷ hs) = let again = cancelled_n-end_all hs in omega (arith, again)
cancelled_n-end_all (cancelled ∷ hs) = let again = cancelled_n-end_all hs in omega (arith, again)

-- A task that no thread has taken, and where its handle stands.
pub record Queued (hs : List Handle) : Type 0 where
  pub earlier : List Handle
  pub later : List Handle
  pub split : hs ≡ earlier ++ (spawned ∷ later)

Queued-behind : (h : Handle) (hs : List Handle) → Queued hs → Queued (h ∷ hs)
Queued-behind h hs q = record {
  earlier = h ∷ q.earlier;
  later = q.later;
  split = ap (λ xs. h ∷ xs) q.split;
}

pub Queued-or_none : (hs : List Handle) → Queued hs ⊎ (total spawned_n hs ≡ 0)
unfolding total
Queued-or_none [] = inr refl
Queued-or_none (spawned ∷ hs) = inl (record { earlier = []; later = hs; split = refl })
Queued-or_none (h ∷ hs) = elim (Queued-or_none hs) [
  | inl q ↦ inl (Queued-behind h hs q)
  | inr e ↦ inr (ground (arith, e))
]
