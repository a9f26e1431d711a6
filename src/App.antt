-- ===== src/App.antt =====
-- cmd/schedulerd/app/app.cc: the timers and file descriptors that the event loop watches.
-- The kernel's queue (kqueue) is a parameter: whether each call of `kevent` succeeds. A timer's id
-- is its address, which is new while the timer lives. The callbacks of timers are those that the
-- program binds; a descriptor's callback is a number.
pub mod Timers
pub mod Loop
use neo_init_ware.Common.{
  ℕ, suc, ◌==◌, ◌++◌, ◌+◌, Bool, true, false, Option, none, some, List, [], ◌∷◌, Result, ok, err,
  thrown, if◌then◌else◌,
}

-- The callbacks that the program gives to `add_timer`: `Scheduler::job_timeout_cb` of its scheduler
-- (scheduler.cc:76), and `JSTimer::app_cb` of a `JSTimer` by its pointer (js.cc:44).
pub data Callback : Type 0 where
  job_timeout : Callback
  js_timer : (timer : ℕ) → Callback

-- `App::Timer`, with what the kernel's queue keeps of it: whether it recurs, and its period.
pub record Timer : Type 0 where
  pub address : ℕ
  pub m_cb : Callback
  pub m_udata : ℕ
  pub recurs : Bool
  pub ms : ℕ

pub record Fd : Type 0 where
  pub address : ℕ
  pub fd : ℕ
  pub events : ℕ
  pub callback : ℕ

-- `calls` counts the calls of `kevent` that change the queue, `next` is the next address.
pub record App : Type 0 where
  pub m_timers : List Timer
  pub m_fds : List Fd
  pub calls : ℕ
  pub next : ℕ

-- What a removal returns: 0, or -ENOENT.
pub data Removal : Type 0 where
  removed no_entry : Removal

abbrev pub Kernel : Type 0
Kernel = ℕ → Bool

unfoldable pub remove_timer : ℕ → List Timer → List Timer
remove_timer id [] = []
remove_timer id (t ∷ ts) = if t.address == id then remove_timer id ts else t ∷ remove_timer id ts

unfoldable pub has_timer : ℕ → List Timer → Bool
has_timer id [] = false
has_timer id (t ∷ ts) = if t.address == id then true else has_timer id ts

unfoldable pub remove_fd : ℕ → List Fd → List Fd
remove_fd fd [] = []
remove_fd fd (f ∷ fs) = if f.fd == fd then fs else f ∷ remove_fd fd fs

unfoldable pub has_fd : ℕ → List Fd → Bool
has_fd fd [] = false
has_fd fd (f ∷ fs) = if f.fd == fd then true else has_fd fd fs

module _ (kernel : Kernel) where
  -- `App::add_timer`. If the kernel refuses, the timer is taken off the list again.
  unfoldable pub add_timer :
      (recur : Bool) (ms : ℕ) (cb : Callback) (udata : ℕ) → App → Result (ℕ × App)
  add_timer recur ms cb udata a =
      let t : Timer = record {
        address = a.next;
        m_cb = cb;
        m_udata = udata;
        recurs = recur;
        ms = ms;
      } in
      if kernel a.calls
      then ok (
        a.next,
        record a { m_timers = a.m_timers ++ (t ∷ []); calls = a.calls + 1; next = suc a.next },
      )
      else err (thrown "system_error")

  -- `App::del_timer`. The kernel's answer is only logged.
  unfoldable pub del_timer : ℕ → App → Removal × App
  unfolding has_timer remove_timer
  del_timer id a =
      if has_timer id a.m_timers
      then (removed, record a { m_timers = remove_timer id a.m_timers; calls = a.calls + 1 })
      else (no_entry, a)

  -- `App::add_fd`
  unfoldable pub add_fd : (fd events callback : ℕ) → App → Result App
  add_fd fd events callback a =
      let f : Fd = record { address = a.next; fd = fd; events = events; callback = callback } in
      if kernel a.calls
      then ok (record a { m_fds = a.m_fds ++ (f ∷ []); calls = a.calls + 1; next = suc a.next })
      else err (thrown "system_error")

  -- `App::del_fd`
  unfoldable pub del_fd : ℕ → App → Removal × App
  unfolding has_fd remove_fd
  del_fd fd a =
      if has_fd fd a.m_fds
      then (removed, record a { m_fds = remove_fd fd a.m_fds; calls = a.calls + 1 })
      else (no_entry, a)
