-- ===== src/JsTimers.antt =====
-- `struct JSTimer` of cmd/schedulerd/js/js.cc: the timers that scripts set and clear. A callback of
-- a script is a number; the callback of a timer of the event loop is `app_cb`, bound to its `JSTimer`
-- by its pointer. A number of milliseconds is a 64-bit word, and the event loop's `int` is its low
-- half.
use neo_init_ware.Common.{
  ℕ, suc, ◌≡◌, refl, ap, ◌∙◌, sym, Bool, true, false, Option, none, some, Result, ok, err,
  undefined, ◌>>=◌, ◌++◌, ◌%◌, ◌^◌, List, [], ◌∷◌, update, subst, ok-injective, >>=-eq-ok, >>=-runs,
  arith,
}
use neo_init_ware.App.{App, Kernel, job_timeout, js_timer, add_timer, del_timer}
use neo_init_ware.App.Timers.{IsFresh, added-eq, timer_at, del_timer-add_timer}
use neo_init_ware.App.Loop.{Event, timer, Call, on_timer, on_fd, loop, at_once, loop-add_timer}

pub record JsTimer : Type 0 where
  pub js_callback : ℕ
  pub m_id : ℕ

-- The timers that are allocated, `none` being memory that is not, or no longer, and the event loop.
pub record Js : Type 0 where
  pub m_app : App
  pub timers : ℕ → Option JsTimer
  pub next_timer : ℕ

module _ (kernel : Kernel) where
  -- The constructor of `JSTimer`, and its allocation.
  unfoldable pub new_js_timer : (function ms : ℕ) (recurs : Bool) → Js → Result (ℕ × Js)
  unfolding add_timer
  new_js_timer function ms recurs js = do
    let t = js.next_timer
    (id, app) ← add_timer kernel recurs (ms % 2 ^ 32) (js_timer t) 0 js.m_app
    let made : JsTimer = record { js_callback = function; m_id = id }
    ok (t, record { m_app = app; timers = update js.timers t (some made); next_timer = suc t })

  -- `JSTimer::setTimeout`
  unfoldable pub set_timeout : (function ms : ℕ) → Js → Result (ℕ × Js)
  unfolding new_js_timer
  set_timeout function ms js = new_js_timer function ms false js

  -- `JSTimer::setInterval`
  unfoldable pub set_interval : (function ms : ℕ) → Js → Result (ℕ × Js)
  unfolding new_js_timer
  set_interval function ms js = new_js_timer function ms true js

  -- `JSTimer::clearTimeout`, which is also `clearInterval`.
  unfoldable pub clear_timeout : ℕ → Js → Result Js
  unfolding del_timer
  clear_timeout t js = elim (js.timers t) [
    | none ↦ err undefined
    | some found ↦ ok (record js {
      m_app = (del_timer kernel found.m_id js.m_app).1;
      timers = update js.timers t none;
    })
  ]

-- `JSTimer::app_cb`: the callback of the script that is called.
unfoldable pub app_cb : ℕ → Js → Result ℕ
app_cb t js = elim (js.timers t) [ none ↦ err undefined | some found ↦ ok found.js_callback ]

-- The scripts' functions that timers called, in order.
pub record Run : Type 0 where
  pub js : Js
  pub called : List ℕ

-- What the event loop's calls do; those that are not of a script's timer are a parameter.
unfoldable pub js_call : (other : Call → Run → Result Run) → Call → Run → Result Run
unfolding app_cb
js_call other (on_timer (js_timer t) id udata) r = do
  function ← app_cb t r.js
  ok (record r { called = r.called ++ (function ∷ []) })
js_call other (on_timer job_timeout id udata) r = other (on_timer job_timeout id udata) r
js_call other (on_fd callback fd) r = other (on_fd callback fd) r

abbrev pub run_loop : (Call → Run → Result Run) → List Event → Run → Result Run
run_loop other es r = loop (λ x. x.js.m_app) (js_call other) (λ x. ok x) es r

new_js_timer-eq-ok :
    (kernel : Kernel) (function ms : ℕ) (recurs : Bool) (t : ℕ) (js set : Js)
    → new_js_timer kernel function ms recurs js ≡ ok (t, set)
    → (id : ℕ) × (add_timer kernel recurs (ms % 2 ^ 32) (js_timer t) 0 js.m_app
        ≡ ok (id, set.m_app))
      × (set.timers t ≡ some (record { js_callback = function; m_id = id }))
unfolding new_js_timer
new_js_timer-eq-ok kernel function ms recurs t js set made =
    let ((id, app), added, rest) =
      >>=-eq-ok (add_timer kernel recurs (ms % 2 ^ 32) (js_timer js.next_timer) 0 js.m_app) _
        made in
    let e = ok-injective rest in
    let t_eq : js.next_timer ≡ t = ap (λ x. x.0) e in
    let set_eq = ap (λ x. x.1) e in
    (
      id,
      subst
          (λ x. add_timer kernel recurs (ms % 2 ^ 32) (js_timer x) 0 js.m_app ≡ ok (id, set.m_app))
          t_eq (added ∙ ap (λ s. ok (id, s.m_app)) set_eq),
      sym (ap (λ s. s.timers t) set_eq) ∙ ground arith,
    )

-- Where the addresses in use lie below the next one, a timer that a script sets is added to the event
-- loop's, with the low half of its period and whether it recurs, and the loop calls the script's
-- function, and no other, when it elapses. Clearing it gives back the event loop's timers as they
-- were; an event of the timer that is handled later is undefined behaviour, and so is a second
-- clearing, as the memory is freed.
pub clear_timeout-new_js_timer :
    (other : Call → Run → Result Run) (kernel : Kernel) (function ms : ℕ) (recurs : Bool) (t : ℕ)
    (js set : Js) (before : List ℕ)
    → IsFresh js.m_app
    → new_js_timer kernel function ms recurs js ≡ ok (t, set)
    → (id : ℕ) × (set.m_app.m_timers
        ≡ js.m_app.m_timers ++ (timer_at id recurs (ms % 2 ^ 32) (js_timer t) 0 ∷ []))
      × (run_loop other (timer id ∷ []) (record { js = set; called = before })
          ≡ ok (record { js = set; called = before ++ (function ∷ []) }))
      × ((cleared : Js) × (clear_timeout kernel t set ≡ ok cleared)
          × (cleared.m_app.m_timers ≡ js.m_app.m_timers)
          × (run_loop other (timer id ∷ []) (record { js = cleared; called = before })
              ≡ err undefined)
          × (clear_timeout kernel t cleared ≡ err undefined))
unfolding clear_timeout app_cb js_call loop
clear_timeout-new_js_timer other kernel function ms recurs t js set before fresh made =
    let (id, added, at) = new_js_timer-eq-ok kernel function ms recurs t js set made in
    let (new, stays, removes, back, once) =
      del_timer-add_timer kernel recurs (ms % 2 ^ 32) (js_timer t) 0 id js.m_app set.m_app fresh
        added in
    let (here, are, next) =
      added-eq kernel recurs (ms % 2 ^ 32) (js_timer t) 0 id js.m_app set.m_app fresh added in
    let cleared : Js = record set {
      m_app = (del_timer kernel id set.m_app).1;
      timers = update set.timers t none;
    } in
    let gone : cleared.timers t ≡ none = ground arith in
    let set_run : Run = record { js = set; called = before } in
    let cleared_run : Run = record { js = cleared; called = before } in
    let (elapses, freed) =
      loop-add_timer (λ x. x.js.m_app) (js_call other) (λ x. ok x) kernel recurs (ms % 2 ^ 32)
        (js_timer t) 0 id js.m_app set.m_app set.m_app [] set_run cleared_run fresh added at_once
        refl refl in
    let calls : js_call other (on_timer (js_timer t) id 0) set_run
        ≡ ok (record { js = set; called = before ++ (function ∷ []) }) =
      >>=-runs (app_cb t set) _ {x = function} (rw (at, app_cb) refl) refl in
    (
      id,
      are,
      elapses ∙ >>=-runs (js_call other (on_timer (js_timer t) id 0) set_run) _ calls refl,
      (cleared, rw (at, clear_timeout) refl, back, freed, rw (gone, clear_timeout) refl),
    )
