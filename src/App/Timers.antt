-- ===== src/App/Timers.antt =====
-- The watch lists of app.cc: what is added can be removed, once.
use neo_init_ware.Common.{
  ℕ, suc, ◌≡◌, ◌<◌, ◌==◌, ◌++◌, ◌+◌, refl, Bool, true, false, List, [], ◌∷◌, ok, arith,
  if◌then◌else◌,
}
use neo_init_ware.App.{
  Timer, Callback, App, Kernel, removed, no_entry, add_timer, del_timer, has_timer, remove_timer,
}

-- The addresses in use lie below the next one.
abbrev pub IsFresh : App → Type 0
IsFresh a = (id : ℕ) → has_timer id a.m_timers ≡ true → id < a.next

has_timer-append :
    (id : ℕ) (ts : List Timer) (t : Timer)
    → has_timer id (ts ++ (t ∷ [])) ≡ (if has_timer id ts then true else (t.address == id))
unfolding has_timer
has_timer-append id [] t = ground arith
has_timer-append id (x ∷ ts) t = ground (arith, has_timer-append id ts t)

has_timer-remove_timer :
    (id k : ℕ) (ts : List Timer)
    → has_timer id (remove_timer k ts) ≡ (if k == id then false else has_timer id ts)
unfolding has_timer remove_timer
has_timer-remove_timer id k [] = ground arith
has_timer-remove_timer id k (t ∷ ts) = ground (arith, has_timer-remove_timer id k ts)

remove_timer-append :
    (id : ℕ) (ts : List Timer) (t : Timer)
    → has_timer id ts ≡ false
    → t.address ≡ id
    → remove_timer id (ts ++ (t ∷ [])) ≡ ts
unfolding has_timer remove_timer
remove_timer-append id [] t absent here = ground arith
remove_timer-append id (x ∷ ts) t absent here = ground (arith, remove_timer-append id ts t)

abbrev pub timer_at : (address : ℕ) (recurs : Bool) (ms : ℕ) (cb : Callback) (udata : ℕ) → Timer
timer_at address recurs ms cb udata = record {
  address = address;
  m_cb = cb;
  m_udata = udata;
  recurs = recurs;
  ms = ms;
}

module _ (kernel : Kernel) (recur : Bool) (ms : ℕ) (cb : Callback) (udata id : ℕ) (a b : App)
    (fresh : IsFresh a) (added : add_timer kernel recur ms cb udata a ≡ ok (id, b)) where
  pub added-eq :
      (id ≡ a.next)
      × (b.m_timers ≡ a.m_timers ++ (timer_at id recur ms cb udata ∷ []))
      × (b.next ≡ suc a.next)
  unfolding add_timer
  added-eq = ground arith

  pub added_new : has_timer id a.m_timers ≡ false
  added_new = ground (arith, added-eq, fresh id)

  has_timer-added :
      (k : ℕ) → has_timer k b.m_timers ≡ (if has_timer k a.m_timers then true else (id == k))
  has_timer-added k = rw added-eq.1 (has_timer-append k a.m_timers (timer_at id recur ms cb udata))

  pub added-IsFresh : IsFresh b
  added-IsFresh k h = ground (arith, added-eq, has_timer-added k, fresh k)

  removed_again : remove_timer id b.m_timers ≡ a.m_timers
  removed_again =
      rw added-eq.1
        (remove_timer-append id a.m_timers (timer_at id recur ms cb udata) added_new refl)

-- A timer that was added gets an address that no timer has. Removing it succeeds and gives back
-- the list as it was; removing it once more finds no such timer, and changes nothing.
pub del_timer-add_timer :
    (kernel : Kernel) (recur : Bool) (ms : ℕ) (cb : Callback) (udata id : ℕ) (a b : App)
    → IsFresh a
    → add_timer kernel recur ms cb udata a ≡ ok (id, b)
    → (has_timer id a.m_timers ≡ false)
      × IsFresh b
      × ((del_timer kernel id b).0 ≡ removed)
      × ((del_timer kernel id b).1.m_timers ≡ a.m_timers)
      × (del_timer kernel id (del_timer kernel id b).1 ≡ (no_entry, (del_timer kernel id b).1))
unfolding add_timer del_timer
del_timer-add_timer kernel recur ms cb udata id a b fresh added =
    let has = has_timer-added kernel recur ms cb udata id a b fresh added id in
    let new = added_new kernel recur ms cb udata id a b fresh added in
    let back = removed_again kernel recur ms cb udata id a b fresh added in
    let there : has_timer id b.m_timers ≡ true = ground arith in
    let first : del_timer kernel id b
        ≡ (removed, record b { m_timers = a.m_timers; calls = b.calls + 1 }) =
      ground arith in
    rw (first, new)
      (refl, added-IsFresh kernel recur ms cb udata id a b fresh added, refl, refl, refl)
