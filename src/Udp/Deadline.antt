-- ===== src/Udp/Deadline.antt =====
-- The synchronous UDP clients return, given fuel for their time limit.
use vcl_rs.Base.{ℕ, zero, suc, ◌+◌, ◌*◌, ◌≤◌, ◌≡◌, true, false, Option, List, leb, leb→lt, arith}
use vcl_rs.Net.{IpAddr, SocketAddr}
use vcl_rs.Error.{would_block}
use vcl_rs.Ffi.{Vcl, millis}
use vcl_rs.Machine.{State, host, advance, ◌>>=◌, ◌>>◌}
use vcl_rs.Machine.Hoare.{
  Hoare, Hoare-bind, Hoare-match, Hoare-pure, Hoare-fail, Hoare-when, Hoare-host, Hoare-advance,
  Hoare-call_out, Hoare-out_of_fuel, Anything,
}
use vcl_rs.Machine.Ends.{Ends, has_returned, ends_rules, Ends-of_Hoare}
use vcl_rs.Session.{recvfrom, as_u32}
use vcl_rs.Session.Check.{check-either}
use vcl_rs.Session.Ends.{create_udp-Ends, listen-Ends, sendto-Ends}
use vcl_rs.Udp.Ends.{bind_ephemeral-Ends, choose_bind_ip-Ends, register_worker_thread-Ends}
use vcl_rs.Udp.{poll_response, query_udp_on, query_udp_sync}

-- What the clock of `Instant::now` promises.
pub record Clock ⦃V : Vcl⦄ : Type 0 where
  pub clock : V.World → ℕ
  pub now_reads : (w : V.World) → (clock w ≤ (V.now w).0) × ((V.now w).0 ≤ clock (V.now w).1)
  pub sleep_passes : (n : ℕ) (w : V.World) → clock w + n ≤ clock (V.sleep n w)
  pub recvfrom_forward :
      (h n flags : ℕ) (w : V.World) → clock w ≤ clock (V.session_recvfrom h n flags w).2

module _ ⦃V : Vcl⦄ where
  module _ (C : Clock) where
    -- The clock has `n` polls of 5 ms to go to the deadline at most.
    abbrev Within : ℕ → ℕ → State → Type 0
    Within deadline n s = deadline ≤ C.clock s.world + n * millis 5

    recvfrom-Within :
        (h size deadline n : ℕ)
        → Hoare
            (Within deadline n)
            (recvfrom h size)
            (λ _. Within deadline n)
            (λ _. Within deadline n)
            (false ≡ true)
    unfolding recvfrom
    recvfrom-Within h size deadline n =
        Hoare-bind _ _ (λ _. Within deadline n) _
          (Hoare-call_out _ _
            (λ s p. omega (arith, p, C.recvfrom_forward h (as_u32 size) 0 s.world)))
          (λ (rc, out). Hoare-bind _ _ _ _ (check-either _ _ rc) (λ count. Hoare-pure _ (λ s p. p)))

    -- After the wait of a round that leaves `k` rounds.
    abbrev Waited : ℕ → ℕ → ℕ → State → Type 0
    Waited deadline k now s = Within deadline k s × (deadline ≤ now + k * millis 5)

    round-Ends :
        (k h deadline : ℕ)
        → ((now : ℕ)
            → leb deadline now ≡ false
            → Hoare
                (Waited deadline k now)
                (advance (V.sleep (millis 5)) >> poll_response k h deadline)
                Anything
                Anything
                (false ≡ true))
        → Hoare
            (Within deadline k)
            (poll_response (suc k) h deadline)
            Anything
            Anything
            (false ≡ true)
    unfolding poll_response
    round-Ends k h deadline again =
        Hoare-match _ _ _ _ _ _ (recvfrom-Within h _ deadline k)
          (λ (n, bytes, from). Hoare-pure _ (λ s p. tt))
          (elim [
            | would_block ↦
                Hoare-bind _ _ (Waited deadline k) _
                  (Hoare-host _ (λ s p.
                    let (below, above) = C.now_reads s.world in
                    (omega (arith, p, below, above), omega (arith, p, below))))
                  (λ now. Hoare-when _ (λ e. Hoare-fail _ (λ s p. tt)) (again now))
            | e ↦ Hoare-fail _ (λ s p. tt)
          ])

    poll_response-Ends :
        (k h deadline : ℕ)
        → Hoare
            (Within deadline k)
            (poll_response (suc k) h deadline)
            Anything
            Anything
            (false ≡ true)
    unfolding poll_response
    poll_response-Ends zero h deadline = round-Ends 0 h deadline λ now e.
        Hoare-bind _ _ (λ _ s. false ≡ true) _
          (Hoare-advance _ (λ s (p, q). let lt = leb→lt deadline now e in ground arith))
          (λ _. Hoare-out_of_fuel (λ s p. p))
    poll_response-Ends (suc k) h deadline = round-Ends (suc k) h deadline λ now e.
        Hoare-bind _ _ (λ _. Within deadline k) _
          (Hoare-advance _ (λ s (p, q). omega (arith, p, C.sleep_passes (millis 5) s.world)))
          (λ _. poll_response-Ends k h deadline)

    -- The poll that follows the sending of the query.
    poll_from_now-Ends :
        (k h limit : ℕ)
        → limit ≤ k * millis 5
        → Ends (host V.now >>= λ start. poll_response (suc k) h (start + limit))
    poll_from_now-Ends k h limit enough = Ends-of_Hoare _ (
        Hoare-bind _ _ (λ start. Within (start + limit) k) _
          (Hoare-host _
            (λ s p. let (below, above) = C.now_reads s.world in omega (arith, enough, above)))
          (λ start. poll_response-Ends k h (start + limit)))

    query_udp_on-Ends :
        (k h : ℕ) (peer : SocketAddr) (source : Option IpAddr) (query : List ℕ) (limit : ℕ)
        → limit ≤ k * millis 5
        → Ends (query_udp_on (suc k) h peer source query limit)
    unfolding query_udp_on
    query_udp_on-Ends k h peer source query limit enough =
        let poll = poll_from_now-Ends k h limit enough in
        search (ends_rules, choose_bind_ip-Ends, bind_ephemeral-Ends, listen-Ends, sendto-Ends)
          depth 9

    -- `query_udp_sync` returns, with an answer or an error, given one round for each 5 ms of its time
    -- limit and one more, whatever the sessions do, if the clock does not go back and `sleep` lasts
    -- as long as it is told.
    pub query_udp_sync-returns :
        (k : ℕ) (peer : SocketAddr) (source : Option IpAddr) (query : List ℕ) (limit : ℕ)
        → limit ≤ k * millis 5
        → (s : State) → has_returned (query_udp_sync (suc k) peer source query limit s).0 ≡ true
    unfolding query_udp_sync
    query_udp_sync-returns k peer source query limit enough s =
        let polls : (h : ℕ) → Ends (query_udp_on (suc k) h peer source query limit) =
          λ h. query_udp_on-Ends k h peer source query limit enough in
        let all : Ends (query_udp_sync (suc k) peer source query limit) =
          search (ends_rules, register_worker_thread-Ends, create_udp-Ends) in
        all.comes s
