-- ===== src/App/Loop.antt =====
-- The event loop of app.cc: `handle_timer`, `handle_fd` and `loop`.
-- The state is what the application is a part of. What a callback does to it, and what
-- `JS::run_pending_jobs` does, are parameters.
use neo_init_ware.Common.{
  ℕ, ◌≡◌, ◌==◌, ◌++◌, refl, Bool, true, false, Option, none, some, List, [], ◌∷◌, Result, ok, err,
  undefined, ◌>>=◌, if◌then◌else◌, arith, inl, inr, Bool-cases, ==_iff,
}
use neo_init_ware.App.{
  Callback, Timer, Fd, App, Kernel, add_timer, del_timer, has_timer, remove_timer,
}
use neo_init_ware.App.Timers.{IsFresh, added-eq, added_new, timer_at}

-- What `kevent` gives: an error, nothing, or an event with its identifier and data.
pub data Event : Type 0 where
  failed nothing : Event
  timer : (ident : ℕ) → Event
  read : (ident udata : ℕ) → Event
  unhandled : Event

-- A call of a callback with its arguments.
pub data Call : Type 0 where
  on_timer : (m_cb : Callback) (id udata : ℕ) → Call
  on_fd : (callback fd : ℕ) → Call

abbrev pub find_timer : ℕ → List Timer → Option Timer
find_timer id [] = none
find_timer id (t ∷ ts) = if t.address == id then some t else find_timer id ts

abbrev find_fd : ℕ → List Fd → Option Fd
find_fd address [] = none
find_fd address (f ∷ fs) = if f.address == address then some f else find_fd address fs

module _ {S : Type 0} (app : S → App) (call : Call → S → Result S)
    (run_pending_jobs : S → Result S) where
  -- `App::handle_timer`. The event's identifier is the timer's address.
  unfoldable pub handle_timer : (ident : ℕ) → S → Result S
  handle_timer ident s = elim (find_timer ident (app s).m_timers) [
    | none ↦ err undefined
    | some t ↦ call (on_timer t.m_cb ident t.m_udata) s
  ]

  -- `App::handle_fd`. The event's data is the address of the descriptor's entry.
  unfoldable pub handle_fd : (ident udata : ℕ) → S → Result S
  handle_fd ident udata s = elim (find_fd udata (app s).m_fds) [
    | none ↦ err undefined
    | some f ↦ call (on_fd f.callback ident) s
  ]

  unfoldable pub handle : Event → S → Result S
  unfolding handle_timer handle_fd
  handle failed s = ok s
  handle nothing s = ok s
  handle (timer ident) s = handle_timer ident s
  handle (read ident udata) s = handle_fd ident udata s
  handle unhandled s = ok s

  -- `App::loop`, for as many iterations as there are events.
  unfoldable pub loop : List Event → S → Result S
  unfolding handle
  loop [] s = ok s
  loop (e ∷ es) s = do s' ← handle e s; s'' ← run_pending_jobs s'; loop es s''

  loop-timer :
      (id : ℕ) (t : Timer) (es : List Event) (s : S)
      → find_timer id (app s).m_timers ≡ some t
      → loop (timer id ∷ es) s
        ≡ (call (on_timer t.m_cb id t.m_udata) s >>= λ c. run_pending_jobs c >>= loop es)
  unfolding loop
  loop-timer id t es s found =
      let handled : handle_timer id s ≡ call (on_timer t.m_cb id t.m_udata) s =
        rw (found, handle_timer) refl in
      rw handled refl

  loop_freed :
      (id : ℕ) (es : List Event) (s : S)
      → find_timer id (app s).m_timers ≡ none
      → loop (timer id ∷ es) s ≡ err undefined
  unfolding loop
  loop_freed id es s freed =
      let handled : handle_timer id s ≡ err undefined = rw (freed, handle_timer) refl in
      rw handled refl

find_timer-append :
    (id : ℕ) (ts : List Timer) (t : Timer)
    → has_timer id ts ≡ false
    → t.address ≡ id
    → find_timer id (ts ++ (t ∷ [])) ≡ some t
unfolding has_timer
find_timer-append id [] t absent here = ground arith
find_timer-append id (x ∷ ts) t absent here = ground (arith, find_timer-append id ts t)

find_timer-kept :
    (id : ℕ) (ts : List Timer) (t u : Timer)
    → find_timer id ts ≡ some t
    → find_timer id (ts ++ (u ∷ [])) ≡ some t
find_timer-kept id [] t u found = cc
find_timer-kept id (x ∷ ts) t u found = ground (arith, find_timer-kept id ts t u)

find_timer-remove_timer :
    (id k : ℕ) (ts : List Timer)
    → find_timer id (remove_timer k ts) ≡ (if k == id then none else find_timer id ts)
unfolding remove_timer
find_timer-remove_timer id k [] = ground arith
find_timer-remove_timer id k (t ∷ ts) = ground (arith, find_timer-remove_timer id k ts)

-- What happens to the timers while one of them is there: others are added and deleted.
pub data Meanwhile (kernel : Kernel) (id : ℕ) (a : App) : App → Type 0 where
  at_once : Meanwhile kernel id a a
  adds :
      {b c : App} (recur : Bool) (ms : ℕ) (cb : Callback) (udata other : ℕ)
      → Meanwhile kernel id a b
      → add_timer kernel recur ms cb udata b ≡ ok (other, c)
      → Meanwhile kernel id a c
  deletes :
      {b : App} (other : ℕ)
      → Meanwhile kernel id a b
      → (other == id) ≡ false
      → Meanwhile kernel id a (del_timer kernel other b).1

added_timers :
    (kernel : Kernel) (recur : Bool) (ms : ℕ) (cb : Callback) (udata other : ℕ) (b c : App)
    → add_timer kernel recur ms cb udata b ≡ ok (other, c)
    → c.m_timers ≡ b.m_timers ++ (timer_at b.next recur ms cb udata ∷ [])
unfolding add_timer
added_timers kernel recur ms cb udata other b c added = ground arith

has_timer-find_timer :
    (id : ℕ) (ts : List Timer) → has_timer id ts ≡ false → find_timer id ts ≡ none
unfolding has_timer
has_timer-find_timer id [] new = refl
has_timer-find_timer id (t ∷ ts) new = ground (arith, has_timer-find_timer id ts)

-- Deletion leaves just the other timers to be found.
find_timer-del_timer :
    (kernel : Kernel) (id k : ℕ) (b : App)
    → find_timer id (del_timer kernel k b).1.m_timers
      ≡ (if k == id then none else find_timer id b.m_timers)
unfolding del_timer
find_timer-del_timer kernel id k b = elim (Bool-cases (has_timer k b.m_timers)) [
  | inl has ↦ rw (has, del_timer) (find_timer-remove_timer id k b.m_timers)
  | inr new ↦
      rw (new, del_timer)
        (elim (Bool-cases (k == id)) [
          | inl same ↦ rw (same, ← (==_iff k id).0 same) (has_timer-find_timer k b.m_timers new)
          | inr other ↦ rw other refl
        ])
]

Meanwhile-find_timer :
    (kernel : Kernel) (id : ℕ) (t : Timer) (a b : App)
    → find_timer id a.m_timers ≡ some t
    → Meanwhile kernel id a b
    → find_timer id b.m_timers ≡ some t
Meanwhile-find_timer kernel id t a b found at_once = found
Meanwhile-find_timer kernel id t a c found (adds {b = b} recur ms cb udata other before added) =
    rw (added_timers kernel recur ms cb udata other b c added) (
      find_timer-kept id b.m_timers t (timer_at b.next recur ms cb udata)
        (Meanwhile-find_timer kernel id t a b found before))
Meanwhile-find_timer kernel id t a c found (deletes {b = b} other before apart) =
    rw (find_timer-del_timer kernel id other b, apart)
      (Meanwhile-find_timer kernel id t a b found before)

-- Where the addresses in use lie below the next one: while a timer that was added is not deleted,
-- whatever other timers are added and deleted meanwhile, the loop calls the callback that it was
-- added with, with its id and its data, when it elapses; then it runs the pending jobs, and goes on
-- with what comes next. An event of the timer that is handled after its deletion is undefined
-- behaviour.
pub loop-add_timer :
    {S : Type 0} (app : S → App) (call : Call → S → Result S) (run_pending_jobs : S → Result S)
    (kernel : Kernel) (recur : Bool) (ms : ℕ) (cb : Callback) (udata id : ℕ) (a b c : App)
    (es : List Event) (s gone : S)
    → IsFresh a
    → add_timer kernel recur ms cb udata a ≡ ok (id, b)
    → Meanwhile kernel id b c
    → app s ≡ c
    → app gone ≡ (del_timer kernel id c).1
    → (loop app call run_pending_jobs (timer id ∷ es) s ≡ (
        call (on_timer cb id udata) s >>= λ t.
        run_pending_jobs t >>= loop app call run_pending_jobs es))
      × (loop app call run_pending_jobs (timer id ∷ es) gone ≡ err undefined)
loop-add_timer app call run_pending_jobs kernel recur ms cb udata id a b c es s gone fresh added
      meanwhile is_at is_gone =
    let t = timer_at id recur ms cb udata in
    let eq = added-eq kernel recur ms cb udata id a b fresh added in
    let new = added_new kernel recur ms cb udata id a b fresh added in
    let first : find_timer id b.m_timers ≡ some t =
      rw eq.1 (find_timer-append id a.m_timers t new refl) in
    let still : find_timer id (app s).m_timers ≡ some t =
      rw is_at (Meanwhile-find_timer kernel id t b c first meanwhile) in
    let itself : (id == id) ≡ true = ground arith in
    let freed : find_timer id (app gone).m_timers ≡ none =
      rw (is_gone, find_timer-del_timer kernel id id c, itself) refl in
    (
      loop-timer app call run_pending_jobs id t es s still,
      loop_freed app call run_pending_jobs id es gone freed,
    )
