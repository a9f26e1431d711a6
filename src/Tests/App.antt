-- ===== src/Tests/App.antt =====
-- A timer is added to a list with one timer.
use neo_init_ware.Common.{
  ℕ, some, none, update, err, undefined, Result, ok, ◌>>=◌, ◌+◌, ◌++◌, ◌≡◌, refl, true, false, [],
  ◌∷◌, arith,
}
use neo_init_ware.App.{
  App, Kernel, job_timeout, js_timer, removed, no_entry, add_timer, del_timer, has_timer,
}
use neo_init_ware.App.Loop.{
  Call, loop, loop-add_timer, timer, on_timer, nothing, Meanwhile, at_once, adds, deletes,
}
use neo_init_ware.JsTimers.{
  Js, Run, run_loop, new_js_timer, clear_timeout, clear_timeout-new_js_timer,
}
use neo_init_ware.App.Timers.{IsFresh, timer_at, del_timer-add_timer}

abbrev one_timer : App
one_timer = record {
  m_timers = timer_at 3 false 700 job_timeout 7 ∷ [];
  m_fds = [];
  calls = 1;
  next = 4;
}

abbrev two_timers : App
two_timers = record {
  m_timers = timer_at 3 false 700 job_timeout 7 ∷ timer_at 4 true 50 (js_timer 8) 0 ∷ [];
  m_fds = [];
  calls = 2;
  next = 5;
}

abbrev willing : Kernel
willing _ = true

one_timer-IsFresh : IsFresh one_timer
unfolding has_timer
one_timer-IsFresh id h = ground arith

del_timer-add_timer_example :
    (has_timer 4 one_timer.m_timers ≡ false)
    × IsFresh two_timers
    × ((del_timer willing 4 two_timers).0 ≡ removed)
    × ((del_timer willing 4 two_timers).1.m_timers ≡ one_timer.m_timers)
    × (del_timer willing 4 (del_timer willing 4 two_timers).1
        ≡ (no_entry, (del_timer willing 4 two_timers).1))
unfolding add_timer
del_timer-add_timer_example =
    del_timer-add_timer willing true 50 (js_timer 8) 0 4 one_timer two_timers one_timer-IsFresh refl

-- Every callback counts as a call.
abbrev count : Call → App → Result App
count _ a = ok (record a { calls = a.calls + 1 })

-- Another timer is added meanwhile, and the first one deleted.
abbrev three_timers : App
three_timers = record {
  m_timers =
      timer_at 3 false 700 job_timeout 7
      ∷ timer_at 4 true 50 (js_timer 8) 0
      ∷ timer_at 5 false 700 job_timeout 9
      ∷ [];
  m_fds = [];
  calls = 3;
  next = 6;
}

abbrev later : App
later = record {
  m_timers = timer_at 4 true 50 (js_timer 8) 0 ∷ timer_at 5 false 700 job_timeout 9 ∷ [];
  m_fds = [];
  calls = 4;
  next = 6;
}

abbrev deleted : App
deleted = record {
  m_timers = timer_at 5 false 700 job_timeout 9 ∷ [];
  m_fds = [];
  calls = 5;
  next = 6;
}

to_later : Meanwhile willing 4 two_timers later
unfolding add_timer del_timer
to_later =
    deletes {b = three_timers} 3 (adds {b = two_timers} false 700 job_timeout 9 5 at_once refl) refl

loop-add_timer_example :
    (loop (λ a. a) count (λ a. ok a) (timer 4 ∷ nothing ∷ []) later ≡ (
      count (on_timer (js_timer 8) 4 0) later >>= λ c.
      ok c >>= loop (λ a. a) count (λ a. ok a) (nothing ∷ [])))
    × (loop (λ a. a) count (λ a. ok a) (timer 4 ∷ nothing ∷ []) deleted ≡ err undefined)
unfolding add_timer del_timer
loop-add_timer_example =
    loop-add_timer (λ a. a) count (λ a. ok a) willing true 50 (js_timer 8) 0 4 one_timer two_timers
      later (nothing ∷ []) later deleted one_timer-IsFresh refl to_later refl refl

-- A script sets an interval with its function 9 while another timer is there.
abbrev before_set : Js
before_set = record { m_app = one_timer; timers = λ _. none; next_timer = 8 }

abbrev after_set : Js
after_set = record {
  m_app = two_timers;
  timers = update before_set.timers 8 (some (record { js_callback = 9; m_id = 4 }));
  next_timer = 9;
}

-- The calls of other callbacks change nothing here.
abbrev no_other : Call → Run → Result Run
no_other _ r = ok r

clear_timeout-new_js_timer_example :
    (id : ℕ) × (two_timers.m_timers
      ≡ one_timer.m_timers ++ (timer_at id true 50 (js_timer 8) 0 ∷ []))
    × (run_loop no_other (timer id ∷ []) (record { js = after_set; called = 6 ∷ [] })
        ≡ ok (record { js = after_set; called = 6 ∷ 9 ∷ [] }))
    × ((cleared : Js) × (clear_timeout willing 8 after_set ≡ ok cleared)
        × (cleared.m_app.m_timers ≡ one_timer.m_timers)
        × (run_loop no_other (timer id ∷ []) (record { js = cleared; called = 6 ∷ [] })
            ≡ err undefined)
        × (clear_timeout willing 8 cleared ≡ err undefined))
unfolding new_js_timer
clear_timeout-new_js_timer_example =
    clear_timeout-new_js_timer no_other willing 9 50 true 8 before_set after_set (6 ∷ [])
      one_timer-IsFresh refl
