-- ===== src/Error.antt =====
-- src/error.rs: the error type, and the classification of libvppcom's return codes.
-- A message is data: one constructor for each format string, with the values that are formatted in.
pub mod Classes
use vcl_rs.Base.{ℕ, String, Bool, ◌||◌, Option, none, some, ℤ, neg, ◌==ℤ◌, if◌then◌else◌}
use vcl_rs.Net.{IpAddr, SocketAddr}

mutual
  pub data Message : Type 0 where
    text : String → Message
    unknown_error : ℤ → Message
    epoll_create_failed : ℤ → Message
    epoll_ctl_add_failed : ℤ → Message
    bind_rejected : SocketAddr → VclError → Message
    port_mismatch : SocketAddr → SocketAddr → Message
    addr_parse : Message
    bind_retries_exhausted : Message
    query_too_large : ℕ → Message
    zero_length_response : Message
    family_mismatch : IpAddr → SocketAddr → Message
    family_flag_mismatch : IpAddr → Bool → Message
    connect_retries_exhausted : Message
    source_bind_exhausted : Message
    bind_exhausted : Message
    probe_bind_exhausted : Message
    already_initialized : Message
    invalid_app_name : Message
    connect_join : Message
    prewarm_join : Message
    mq_epoll_fd_negative : Message

  pub data VclError : Type 0 where
    api : Message → ℤ → VclError
    io : VclError
    closed : VclError
    not_connected : VclError
    would_block : VclError
    timeout : VclError

-- The `libc` values of Linux, which the crate's target has.
abbrev pub e_again : ℕ
e_again = 11

abbrev pub e_would_block : ℕ
e_would_block = 11

abbrev pub e_pipe : ℕ
e_pipe = 32

abbrev pub e_conn_reset : ℕ
e_conn_reset = 104

abbrev pub e_not_conn : ℕ
e_not_conn = 107

abbrev pub e_in_progress : ℕ
e_in_progress = 115

-- `retval_str` is `vppcom_retval_str`, which may give a null pointer.
unfoldable pub vcl_retval_str : (ℤ → Option String) → ℤ → Message
vcl_retval_str retval_str rc = elim (retval_str rc) [
  | none ↦ unknown_error rc
  | some msg ↦ text msg
]

unfoldable pub from_rc : (ℤ → Option String) → ℤ → VclError
from_rc retval_str rc =
    if (rc ==ℤ neg e_would_block) || (rc ==ℤ neg e_again) || (rc ==ℤ neg e_in_progress)
    then would_block
    else if rc ==ℤ neg e_not_conn
    then not_connected
    else if (rc ==ℤ neg e_conn_reset) || (rc ==ℤ neg e_pipe)
    then closed
    else api (vcl_retval_str retval_str rc) rc
