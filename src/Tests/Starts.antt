-- ===== src/Tests/Starts.antt =====
-- The start-up of the workers and the ephemeral binds, in the world of `Toy`.
use vcl_rs.Base.{
  pos, ◌≡◌, ◌==◌, if◌then◌else◌, ◌<◌, ◌≤◌, ℕ, refl, true, false, Option, none, some, List, [], ◌∷◌,
  negsuc, arith,
}
use vcl_rs.Net.{SocketAddr}
use vcl_rs.Error.{api, addr_parse}
use vcl_rs.Machine.{State, ok, err, returned, Exit}
use vcl_rs.App.Prewarm.{
  idle, at_barrier, spawned, started, completed, cancelled, spawn_all, end_all, Prewarm, begin,
  run_task, released, Step, make_thread, take_task, leave_barrier, cancel, joins, returns, Reach,
  here, next,
}
use vcl_rs.App.Prewarm.Counts.{waiting, marked}
use vcl_rs.App.Prewarm.Handles.{total}
use vcl_rs.App.Prewarm.Laws.{EveryIndex, prewarm-registers}
use vcl_rs.App.Prewarm.Progress.{SoundStep, work, prewarm-progresses}
use vcl_rs.App.Prewarm.Hangs.{prewarm-hangs}
use vcl_rs.Ephemeral.{low, high}
use vcl_rs.Dgram.Random.{colon, bind_ephemeral_v6}
use vcl_rs.Dgram.Random.Refused.{bind_ephemeral_v6-refused}
use vcl_rs.Machine.Hoare.{After}
use vcl_rs.Udp.{query_udp_sync}
use vcl_rs.Udp.Protocol.{Phase, gone, answered}
use vcl_rs.Udp.Protocol.Refines.{AtPeer, Over, query_udp_sync-refines}
use vcl_rs.Fuzz.{tcp_dns_response}
use vcl_rs.Fuzz.Passes.{tcp_dns_response_passes}
use vcl_rs.Ffi.{Vcl}
use vcl_rs.Tests.Toy.{stranger_endpoint, toy, start, server}

toy_index : EveryIndex
toy_index w = (0, refl)

-- Two tasks: the second thread is made while the first one waits.
abbrev begun : Prewarm
begun = begin 2 start (idle true ∷ [])

abbrev one_waits : Prewarm
one_waits = run_task begun [] true [] [] (spawned ∷ [])

abbrev two_threads : Prewarm
two_threads = record one_waits { threads = idle false ∷ one_waits.threads }

abbrev both_wait : Prewarm
both_wait = run_task two_threads [] false (at_barrier true ∷ []) (started ∷ []) []

abbrev all_joined : Prewarm
all_joined = record (released both_wait) { handles = [] }

abbrev at_end : Prewarm
at_end = record all_joined { outcome = some (ok tt) }

to_two_threads : Reach 2 2 begun two_threads
unfolding begin spawn_all
to_two_threads =
    next (next here (take_task begun [] [] true [] (spawned ∷ []) refl refl refl))
      (make_thread one_waits refl (omega arith))

to_end : Reach 2 2 begun at_end
unfolding begin end_all vcl_rs.App.register_worker_thread vcl_rs.Machine.◌>>=◌
to_end =
    next
      (next
        (next
          (next
            (next to_two_threads (
              take_task two_threads [] (at_barrier true ∷ []) false (started ∷ []) [] refl refl
                refl))
            (leave_barrier both_wait refl refl))
          (joins (released both_wait) (completed ∷ []) refl refl))
        (joins (record (released both_wait) { handles = completed ∷ [] }) [] refl refl))
      (returns all_joined refl refl)

prewarm-registers_example : (2 ≤ marked at_end.threads) × (2 ≤ 2)
unfolding begin waiting
prewarm-registers_example =
    prewarm-registers 2 2 start (idle true ∷ []) at_end toy_index refl (omega arith) to_end refl

prewarm-progresses_example :
    SoundStep 2 2 two_threads
    × ((q : Prewarm) → Step 2 2 two_threads q → work 2 q < work 2 two_threads)
unfolding begin waiting total
prewarm-progresses_example =
    prewarm-progresses 2 2 start (idle true ∷ []) two_threads toy_index refl (omega arith)
      (omega arith) to_two_threads refl refl

-- The first task is at the barrier, and the second one has been cancelled.
abbrev one_lost : Prewarm
one_lost = record one_waits { handles = started ∷ cancelled ∷ [] }

abbrev lost_for_good : Prewarm
lost_for_good = record one_lost { threads = idle false ∷ one_lost.threads }

to_one_lost : Reach 2 2 begun one_lost
unfolding begin spawn_all
to_one_lost =
    next (next here (take_task begun [] [] true [] (spawned ∷ []) refl refl refl))
      (cancel one_waits (started ∷ []) [] refl refl)

prewarm-hangs_example : (lost_for_good.outcome ≡ none) × (0 < waiting lost_for_good.threads)
unfolding begin waiting total
prewarm-hangs_example =
    prewarm-hangs 2 2 start (idle true ∷ []) one_lost lost_for_good (cancelled ∷ []) toy_index refl
      (omega arith) to_one_lost refl refl (omega arith)
      (next here (make_thread one_lost refl (omega arith)))

-- A text of a letter or more that is not a colon stands for the server.
abbrev toy_parse : List ℕ → Option SocketAddr
toy_parse [] = none
toy_parse (c ∷ text) = if c == colon then none else some server

bind_ephemeral_v6-refused_example : bind_ephemeral_v6 toy_parse 9 (record { vep = 0 }) start ≡ (
  returned (err (api addr_parse (negsuc 0))),
  record start { world = (toy.gen_range low high start.world).1 },
)
bind_ephemeral_v6-refused_example =
    bind_ephemeral_v6-refused toy_parse 9 (record { vep = 0 }) start (λ text. refl)

query_udp_sync-refines_example :
    let run = query_udp_sync 3 server none (1 ∷ []) 9 start in
    After
      (λ _ t. (h : ℕ) × AtPeer server (1 ∷ []) [] (gone h answered) t)
      (λ _ t. (p : Phase) × Over server (1 ∷ []) [] p × AtPeer server (1 ∷ []) [] p t)
      (Unit {0})
      run.0
      run.1
query_udp_sync-refines_example = query_udp_sync-refines server (1 ∷ []) [] 3 none 9 start refl

-- A prefix that asks for 512 bytes, and a body of one.
abbrev crafted : List ℕ
crafted = 2 ∷ 0 ∷ 7 ∷ []

tcp_dns_response_passes_example : tcp_dns_response crafted ≡ true
tcp_dns_response_passes_example =
    tcp_dns_response_passes crafted (omega arith, (omega arith, (omega arith, tt)))

-- The stranger sends without end.
abbrev flooded : Vcl
flooded = record toy { session_recvfrom = λ h n f w. (pos 1, (7 ∷ [], stranger_endpoint), w) }

abbrev bound_socket : State ⦃V = flooded⦄
bound_socket = record {
  world = start.world;
  waiters = [];
  registered = true;
  initialized = true;
  trace = [];
}
