-- ===== src/Objects/EdgeType.antt =====
-- `enum Edge::Type` of cmd/schedulerd/scheduler/object.h: a bit mask, `BITFLAG(n)` being 2 ^ n.
use neo_init_ware.Common.{ℕ, ◌^◌}

abbrev pub add_start : ℕ
add_start = 2 ^ 0

abbrev pub add_start_nonreq : ℕ
add_start_nonreq = 2 ^ 1

abbrev pub add_verify : ℕ
add_verify = 2 ^ 2

abbrev pub add_stop : ℕ
add_stop = 2 ^ 3

abbrev pub add_stop_nonreq : ℕ
add_stop_nonreq = 2 ^ 4

abbrev pub propagates_stop_to : ℕ
propagates_stop_to = 2 ^ 5

abbrev pub propagates_restart_to : ℕ
propagates_restart_to = 2 ^ 6

abbrev pub propagates_reload_to : ℕ
propagates_reload_to = 2 ^ 7

abbrev pub start_on_started : ℕ
start_on_started = 2 ^ 8

abbrev pub try_start_on_started : ℕ
try_start_on_started = 2 ^ 9

abbrev pub stop_on_started : ℕ
stop_on_started = 2 ^ 10

abbrev pub stop_on_stopped : ℕ
stop_on_stopped = 2 ^ 11

abbrev pub on_success : ℕ
on_success = 2 ^ 12

abbrev pub on_failure : ℕ
on_failure = 2 ^ 13

abbrev pub after : ℕ
after = 2 ^ 14

abbrev pub before : ℕ
before = 2 ^ 15
