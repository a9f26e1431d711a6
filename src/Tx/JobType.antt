-- ===== src/Tx/JobType.antt =====
-- `enum Transaction::JobType`, its merge matrix, and what a merged type promises.
-- `kInvalid` is `none`: no job has that type, it only answers a merge.
use neo_init_ware.Common.{
  ℕ, zero, suc, ◌≡◌, ◌==◌, arith, ltb, Bool, true, false, Option, none, some, List, [], ◌∷◌, String,
  ◌||◌, if◌then◌else◌,
}

pub data JobType : Type 0 where
  start verify stop reload restart : JobType
  try_start try_restart try_reload reload_or_start restart_or_start : JobType

-- The value of the enumerator.
abbrev pub index : JobType → ℕ
index start = 0
index verify = 1
index stop = 2
index reload = 3
index restart = 4
index try_start = 5
index try_restart = 6
index try_reload = 7
index reload_or_start = 8
index restart_or_start = 9

abbrev pub same_type : JobType → JobType → Bool
same_type a b = index a == index b

pub same_type-eq : (a b : JobType) → same_type a b ≡ true → a ≡ b
same_type-eq start b h = ground arith
same_type-eq a b h = ground arith

pub same_type_refl : (a : JobType) → same_type a a ≡ true
same_type_refl a = ground arith

-- `among`, of iwng_compat/misc_cxx.h, at job types.
abbrev pub among : JobType → List JobType → Bool
among a [] = false
among a (b ∷ bs) = same_type a b || among a bs

abbrev row : JobType → List (Option JobType)
row start = []
row verify = some start ∷ []
row stop = none ∷ none ∷ []
row reload = some start ∷ some start ∷ none ∷ []
row restart = some restart ∷ some restart ∷ none ∷ some restart ∷ []
row try_start = some start ∷ some start ∷ none ∷ some reload_or_start ∷ some restart ∷ []
row try_restart =
    some restart_or_start
    ∷ some restart_or_start
    ∷ none
    ∷ some try_restart
    ∷ some restart
    ∷ some restart_or_start
    ∷ []
row try_reload =
    some reload_or_start
    ∷ some reload_or_start
    ∷ none
    ∷ some reload
    ∷ some restart
    ∷ some reload_or_start
    ∷ some restart_or_start
    ∷ []
row reload_or_start =
    some reload_or_start
    ∷ some reload_or_start
    ∷ none
    ∷ some reload_or_start
    ∷ some restart_or_start
    ∷ some reload_or_start
    ∷ some reload_or_start
    ∷ some reload_or_start
    ∷ []
row restart_or_start =
    some restart_or_start
    ∷ some restart_or_start
    ∷ none
    ∷ some restart_or_start
    ∷ some restart_or_start
    ∷ some restart_or_start
    ∷ some restart_or_start
    ∷ some restart_or_start
    ∷ some restart_or_start
    ∷ []

-- An entry that the initialiser leaves out is zero, which is `kStart`.
abbrev entry : List (Option JobType) → ℕ → Option JobType
entry [] i = some start
entry (x ∷ xs) zero = x
entry (x ∷ xs) (suc i) = entry xs i

unfoldable pub merge_matrix : JobType → JobType → Option JobType
merge_matrix a b = entry (row a) (index b)

-- `Transaction::merged_job_type`
unfoldable pub merged_job_type : JobType → JobType → Option JobType
unfolding merge_matrix
merged_job_type a b =
    if same_type a b
    then some a
    else if ltb (index b) (index a)
    then merge_matrix a b
    else merge_matrix b a

-- `Transaction::type_str`
unfoldable pub type_str : Option JobType → String
type_str none = "invalid"
type_str (some start) = "start"
type_str (some verify) = "verify"
type_str (some stop) = "stop"
type_str (some reload) = "reload"
type_str (some restart) = "restart"
type_str (some try_start) = "try_restart"
type_str (some try_restart) = "try_restart"
type_str (some try_reload) = "try_reload"
type_str (some reload_or_start) = "reload_or_Start"
type_str (some restart_or_start) = "restart_or_start"
