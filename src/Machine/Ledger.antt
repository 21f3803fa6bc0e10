-- ===== src/Machine/Ledger.antt =====
-- Which of libvppcom's handles a run holds, read off the calls that it has made: a session, an
-- accepted session or an epoll set is held from its creation to its close. A close of a handle
-- that is not held is a fault, and a ledger with a fault is `none`.
use mathlib.Core.Option
use vcl_rs.Base.{
  ℕ, ◌≡◌, refl, Bool, true, Option, none, some, List, [], ◌∷◌, ◌++◌, ℤ, pos, negsuc, ◌==◌,
  if◌then◌else◌, arith,
}
use vcl_rs.Machine.{Call, session_create, session_accept, session_close, epoll_create, Event}

-- The list without the first `h`.
abbrev pub release : ℕ → List ℕ → Option (List ℕ)
release h [] = none
release h (x ∷ xs) = if x == h then some xs else Option.map (◌∷◌ x) (release h xs)

abbrev pub hold : List ℕ → Option (List ℕ) → Option (List ℕ)
hold hs none = none
hold hs (some xs) = some (hs ++ xs)

abbrev pub acquire : ℤ → Option (List ℕ) → Option (List ℕ)
acquire (pos h) held = hold (h ∷ []) held
acquire (negsuc n) held = held

abbrev pub let_go : ℕ → Option (List ℕ) → Option (List ℕ)
let_go h none = none
let_go h (some xs) = release h xs

abbrev pub enter : Call → ℤ → Option (List ℕ) → Option (List ℕ)
enter (session_create p n) rc held = acquire rc held
enter (session_accept h f) rc held = acquire rc held
enter epoll_create rc held = acquire rc held
enter (session_close h) rc held = let_go h held
enter _ rc held = held

abbrev pub ledger : List Event → Option (List ℕ)
ledger [] = some []
ledger (e ∷ es) = enter e.call e.rc (ledger es)

-- Calls that neither open nor close a handle.
abbrev pub is_neutral : Call → Bool
is_neutral (session_create p n) = Bool.false
is_neutral (session_accept h f) = Bool.false
is_neutral epoll_create = Bool.false
is_neutral (session_close h) = Bool.false
is_neutral _ = true

pub enter-of_neutral :
    (c : Call) (rc : ℤ) (held : Option (List ℕ)) → is_neutral c ≡ true → enter c rc held ≡ held
enter-of_neutral (session_create p n) rc held h = ground arith
enter-of_neutral _ rc held h = ground arith

pub let_go-hold :
    (h : ℕ) (hs : List ℕ) (held : Option (List ℕ)) → let_go h (hold (h ∷ hs) held) ≡ hold hs held
let_go-hold h hs none = refl
let_go-hold h hs (some xs) = ground arith

pub hold-nil : (held : Option (List ℕ)) → hold [] held ≡ held
hold-nil none = refl
hold-nil (some xs) = refl
