-- ===== src/App.antt =====
-- src/app.rs: `VclApp`, and the registration of the running thread as a VCL worker.
pub mod Balance
pub mod Laws
pub mod Prewarm
pub mod Race
use vcl_rs.Base.{ℕ, Bool, true, false, ◌||◌, List, [], ◌∷◌, ℤ, pos, negsuc, ◌==◌}
use vcl_rs.Error.{api, already_initialized, invalid_app_name, from_rc}
use vcl_rs.Ffi.{Vcl}
use vcl_rs.Machine.{
  M, pure, fail, ◌>>=◌, ◌>>◌, when◌then◌else◌, call, call_void, gets, set_registered,
  set_initialized, app_create, app_destroy, worker_register, worker_unregister, worker_index,
  mq_epoll_fd,
}

-- `CString::new` refuses a name with a NUL byte.
abbrev pub has_nul : List ℕ → Bool
has_nul [] = false
has_nul (b ∷ bytes) = (b == 0) || has_nul bytes

module _ ⦃V : Vcl⦄ where
  -- The branch on the code of `vppcom_app_create`.
  unfoldable pub created : ℤ → M (Unit {0})
  created (pos n) = pure tt
  created (negsuc n) = do set_initialized false; fail (from_rc V.retval_str (negsuc n))

  -- `VclApp::init`. The value `VclApp` has no content.
  unfoldable pub init : List ℕ → M (Unit {0})
  unfolding created
  init app_name = do
    was ← gets (λ s. s.initialized)
    set_initialized true
    when was
        then fail (api already_initialized (negsuc 0))
        else when has_nul app_name
        then fail (api invalid_app_name (negsuc 0))
        else (do rc ← call (app_create app_name) (V.app_create app_name); created rc)

  -- `VclApp::mq_epoll_fd`
  unfoldable pub app_mq_epoll_fd : M ℤ
  app_mq_epoll_fd = call mq_epoll_fd V.mq_epoll_fd

  -- `Drop for VclApp`
  unfoldable pub drop_app : M (Unit {0})
  drop_app = do call_void app_destroy V.app_destroy; set_initialized false

  -- The branch on the worker's index.
  unfoldable pub registered_as : ℤ → M (Unit {0})
  registered_as (pos n) = set_registered true
  registered_as (negsuc n) = call_void worker_unregister V.worker_unregister

  unfoldable pub register_worker_thread : M (Unit {0})
  unfolding registered_as
  register_worker_thread = do
    known ← gets (λ s. s.registered)
    when known then pure tt else (do
      _ ← call worker_register V.worker_register
      idx ← call worker_index V.worker_index
      registered_as idx)
