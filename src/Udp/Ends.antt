-- ===== src/Udp/Ends.antt =====
-- The parts of the synchronous UDP clients that wait for nothing.
use vcl_rs.Base.{ℕ, zero, suc, Bool, true, false, Option, none, some, ℤ, pos, negsuc}
use vcl_rs.Net.{IpAddr, v4, v6, SocketAddr}
use vcl_rs.Ffi.{Vcl}
use vcl_rs.Machine.{ok, err}
use vcl_rs.Machine.Ends.{Ends, Ends-bind, ends_rules}
use vcl_rs.Session.Ends.{create_udp-Ends, bind-Ends, listen-Ends, connect-Ends, local_addr-Ends}
use vcl_rs.App.{registered_as, register_worker_thread}
use vcl_rs.Ephemeral.{bind_ephemeral}
use vcl_rs.Udp.{choose_bind_ip, probe_on, probe_local_source, socket_bind_ip, sync_setup, sync_bind}

module _ ⦃V : Vcl⦄ where
  pub bind_ephemeral-Ends : (n h : ℕ) (ip : IpAddr) → Ends (bind_ephemeral n h ip)
  unfolding bind_ephemeral
  bind_ephemeral-Ends zero h ip = search ends_rules
  bind_ephemeral-Ends (suc n) h ip = Ends-bind _ _ (search ends_rules) λ port.
      Ends-bind _ _ (search (ends_rules, bind-Ends))
        (elim [ ok _ ↦ search ends_rules | err e ↦ bind_ephemeral-Ends n h ip ])

  pub choose_bind_ip-Ends :
      (peer : SocketAddr) (source : Option IpAddr) → Ends (choose_bind_ip peer source)
  unfolding choose_bind_ip
  choose_bind_ip-Ends peer none = search ends_rules
  choose_bind_ip-Ends peer (some ip) = search ends_rules

  registered_as-Ends : (idx : ℤ) → Ends (registered_as idx)
  unfolding registered_as
  registered_as-Ends (pos n) = search ends_rules
  registered_as-Ends (negsuc n) = search ends_rules

  pub register_worker_thread-Ends : Ends register_worker_thread
  unfolding register_worker_thread
  register_worker_thread-Ends = search (ends_rules, registered_as-Ends) depth 7

  probe_on-Ends : (h : ℕ) (peer : SocketAddr) → Ends (probe_on h peer)
  unfolding probe_on
  probe_on-Ends h peer =
      search (ends_rules, bind_ephemeral-Ends, connect-Ends, local_addr-Ends) depth 7

  pub probe_local_source-Ends : (peer : SocketAddr) → Ends (probe_local_source peer)
  unfolding probe_local_source
  probe_local_source-Ends peer =
      search (ends_rules, register_worker_thread-Ends, create_udp-Ends, probe_on-Ends) depth 7

  socket_bind_ip-Ends : (source : Option IpAddr) (is_v6 : Bool) → Ends (socket_bind_ip source is_v6)
  unfolding socket_bind_ip
  socket_bind_ip-Ends (some (v4 o)) false = search ends_rules
  socket_bind_ip-Ends (some (v6 o)) true = search ends_rules
  socket_bind_ip-Ends (some (v4 o)) true = search ends_rules
  socket_bind_ip-Ends (some (v6 o)) false = search ends_rules
  socket_bind_ip-Ends none is_v6 = search ends_rules

  sync_setup-Ends :
      (h : ℕ) (source : Option IpAddr) (is_v6 : Bool) → Ends (sync_setup h source is_v6)
  unfolding sync_setup
  sync_setup-Ends h source is_v6 =
      search (ends_rules, socket_bind_ip-Ends, bind_ephemeral-Ends, listen-Ends) depth 7

  pub sync_bind-Ends : (source : Option IpAddr) (is_v6 : Bool) → Ends (sync_bind source is_v6)
  unfolding sync_bind
  sync_bind-Ends source is_v6 =
      search (ends_rules, register_worker_thread-Ends, create_udp-Ends, sync_setup-Ends) depth 9
