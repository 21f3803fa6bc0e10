-- ===== src/Tests/Races.antt =====
-- Two threads that initialise VCL at once, in the world of `Toy`.
use vcl_rs.Base.{true, ◌≡◌, ◌≤◌, refl, some, [], ◌∷◌, negsuc}
use vcl_rs.Error.{api, already_initialized}
use vcl_rs.Machine.{State, Result, ok, err, returned, app_create}
use vcl_rs.App.Race.{
  uncalled, claimed, alive, over, proceed, Process, begin, proceeds, Reach, here, next,
}
use vcl_rs.App.Race.Exclusive.{app_ledger, living, flag, apps-exclusive}
use vcl_rs.Tests.Toy.{toy, start}

-- The flag is taken.
abbrev taken : State
taken = record start { initialized = true }

abbrev created : State
created = (proceed (claimed (5 ∷ [])) taken).1

-- The second call comes between the two steps of the first.
abbrev at_end : Process
at_end = record {
  state = created;
  lives = alive ∷ over (err (api already_initialized (negsuc 0))) ∷ [];
}

to_end : Reach (begin ((5 ∷ []) ∷ (6 ∷ []) ∷ []) start) at_end
unfolding proceed vcl_rs.Machine.◌>>=◌
to_end =
    next
      (next
        (next here (proceeds [] (uncalled (6 ∷ []) ∷ []) (uncalled (5 ∷ [])) _ start taken refl))
        (proceeds (claimed (5 ∷ []) ∷ []) [] (uncalled (6 ∷ [])) _ taken taken refl))
      (proceeds [] (over (err (api already_initialized (negsuc 0))) ∷ []) (claimed (5 ∷ [])) _ taken
        created refl)

apps-exclusive_example :
    (app_ledger created.trace ≡ some (living at_end.lives))
    × (living at_end.lives ≤ flag created.initialized)
apps-exclusive_example = apps-exclusive ((5 ∷ []) ∷ (6 ∷ []) ∷ []) start at_end refl to_end
