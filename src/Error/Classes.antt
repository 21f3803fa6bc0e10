-- ===== src/Error/Classes.antt =====
-- What each return code means to the poll loops.
use vcl_rs.Base.{String, ◌≡◌, ◌≢◌, ◌↔◌, ◌⊎◌, Option, ℤ, pos, negsuc, neg, arith}
use vcl_rs.Error.{
  api, io, closed, not_connected, would_block, timeout, vcl_retval_str, from_rc, e_again,
  e_would_block, e_pipe, e_conn_reset, e_not_conn, e_in_progress,
}

module _ (retval_str : ℤ → Option String) where
  -- A code is "would block" exactly when it is EWOULDBLOCK, EAGAIN or EINPROGRESS, "not connected"
  -- exactly when it is ENOTCONN, and "closed" exactly when it is ECONNRESET or EPIPE, each negated.
  -- Every other code becomes an `Api` error that carries it and its message, so that no code
  -- becomes a time-out or an I/O error.
  pub from_rc_classes :
      (rc : ℤ)
      → ((from_rc retval_str rc ≡ would_block)
          ↔ ((rc ≡ neg e_would_block) ⊎ (rc ≡ neg e_again) ⊎ (rc ≡ neg e_in_progress)))
        × ((from_rc retval_str rc ≡ not_connected) ↔ (rc ≡ neg e_not_conn))
        × ((from_rc retval_str rc ≡ closed) ↔ ((rc ≡ neg e_conn_reset) ⊎ (rc ≡ neg e_pipe)))
        × ((from_rc retval_str rc ≡ api (vcl_retval_str retval_str rc) rc)
            ⊎ (from_rc retval_str rc ≡ would_block)
            ⊎ (from_rc retval_str rc ≡ not_connected)
            ⊎ (from_rc retval_str rc ≡ closed))
        × (from_rc retval_str rc ≢ timeout)
        × (from_rc retval_str rc ≢ io)
  unfolding from_rc
  from_rc_classes (pos n) =
      (ground arith, ground arith, ground arith, ground arith, ground arith, ground arith)
  from_rc_classes (negsuc n) =
      (ground arith, ground arith, ground arith, ground arith, ground arith, ground arith)
