-- ===== src/App/Prewarm/Counts.antt =====
-- How many threads of a pool wait, and how many are registered.
use vcl_rs.Base.{
  ℕ, ◌+◌, ◌≤◌, ◌≡◌, ◌⊎◌, inl, inr, refl, Bool, true, false, List, [], ◌∷◌, ◌++◌, ap, length, arith,
}
use vcl_rs.App.Prewarm.{Thread, idle, at_barrier, let_go, release}

abbrev pub waits : Thread → ℕ
waits (idle b) = 0
waits (at_barrier b) = 1

abbrev pub counts : Bool → ℕ
counts true = 1
counts false = 0

abbrev pub marks : Thread → ℕ
marks (idle b) = counts b
marks (at_barrier b) = counts b

unfoldable pub waiting : List Thread → ℕ
waiting [] = 0
waiting (t ∷ ts) = waits t + waiting ts

unfoldable pub marked : List Thread → ℕ
marked [] = 0
marked (t ∷ ts) = marks t + marked ts

-- Whoever waits is registered.
abbrev pub Sound : Thread → Type 0
Sound (idle b) = Unit {0}
Sound (at_barrier b) = b ≡ true

pub data AllSound : List Thread → Type 0 where
  nil : AllSound []
  cons : (t : Thread) (ts : List Thread) → Sound t → AllSound ts → AllSound (t ∷ ts)

pub waiting-replace :
    (xs ys : List Thread) (b c : Bool)
    → waiting (xs ++ (at_barrier c ∷ ys)) ≡ 1 + waiting (xs ++ (idle b ∷ ys))
unfolding waiting
waiting-replace [] ys b c = omega arith
waiting-replace (x ∷ xs) ys b c = let again = waiting-replace xs ys b c in omega (arith, again)

pub waiting-AllSound : (ts : List Thread) → waiting ts ≡ 0 → AllSound ts
unfolding waiting
waiting-AllSound [] e = nil
waiting-AllSound (idle b ∷ ts) e = cons _ ts tt (waiting-AllSound ts (omega (arith, e)))
waiting-AllSound (at_barrier b ∷ ts) e = absurd (omega (arith, e))

pub length-replace :
    (xs ys : List Thread) (t u : Thread) → length (xs ++ (t ∷ ys)) ≡ length (xs ++ (u ∷ ys))
length-replace [] ys t u = refl
length-replace (x ∷ xs) ys t u = let again = length-replace xs ys t u in omega (arith, again)

pub length-release : (ts : List Thread) → length (release ts) ≡ length ts
unfolding release
length-release [] = refl
length-release (t ∷ ts) = let again = length-release ts in omega (arith, again)

pub AllSound-replace :
    (xs ys : List Thread) (t u : Thread)
    → Sound u
    → AllSound (xs ++ (t ∷ ys))
    → AllSound (xs ++ (u ∷ ys))
AllSound-replace [] ys t u h (cons _ _ _ rest) = cons u ys h rest
AllSound-replace (x ∷ xs) ys t u h (cons _ _ hx rest) =
    cons x _ hx (AllSound-replace xs ys t u h rest)

let_go-marks : (t : Thread) → Sound t → waits t ≤ marks (let_go t)
let_go-marks (idle b) h = omega arith
let_go-marks (at_barrier b) h = rw h (omega arith)

pub marked-release : (ts : List Thread) → AllSound ts → waiting ts ≤ marked (release ts)
unfolding waiting marked release
marked-release [] h = omega arith
marked-release (t ∷ ts) (cons _ _ h rest) =
    let again = marked-release ts rest in omega (arith, again, let_go-marks t h)

marks-bound : (t : Thread) → marks t ≤ 1
marks-bound t = ground arith

pub marked-length : (ts : List Thread) → marked ts ≤ length ts
unfolding marked
marked-length [] = omega arith
marked-length (t ∷ ts) = let again = marked-length ts in omega (arith, again, marks-bound t)

-- A thread that is idle, and where it stands.
pub record Idle (ts : List Thread) : Type 0 where
  pub before : List Thread
  pub behind : List Thread
  pub flag : Bool
  pub split : ts ≡ before ++ (idle flag ∷ behind)

pub free_or_full : (ts : List Thread) → Idle ts ⊎ (length ts ≤ waiting ts)
unfolding waiting
free_or_full [] = inr (omega arith)
free_or_full (idle b ∷ ts) = inl (record { before = []; behind = ts; flag = b; split = refl })
free_or_full (at_barrier b ∷ ts) = elim (free_or_full ts) [
  | inl i ↦ inl (record {
    before = at_barrier b ∷ i.before;
    behind = i.behind;
    flag = i.flag;
    split = ap (λ xs. at_barrier b ∷ xs) i.split;
  })
  | inr full ↦ inr (omega (arith, full))
]
