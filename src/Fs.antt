-- ===== src/Fs.antt =====
-- cmd/schedulerd/js/fs.cc: the functions on files that scripts call.
-- The kernel and the C library are a parameter, `System`: what they answer while a call lasts. A C
-- string is the list of its bytes before the zero byte; a file is what `open` answers for its path.
-- `get_symlinks` reads the name in a buffer whose block was left; the buffer of the next round is
-- taken to stand at the same place.
pub mod Rounds
pub mod Links
pub mod Lengths
pub mod Writing
pub mod Reading
use neo_init_ware.Common.{
  ℕ, zero, suc, ◌≡◌, refl, ◌⊎◌, inl, inr, ◌+◌, ◌-◌, ◌/◌, ◌%◌, ◌^◌, ◌==◌, ◌++◌, ◌>>=◌, ◌>>◌, ltb,
  Bool, true, false, not, Option, none, some, List, [], ◌∷◌, Result, ok, err, guard, undefined,
  length, take, if◌then◌else◌, ℤ, pos, negsuc, ◌+ℤ◌, fits_int64, size_word, int_word, int_of,
}

abbrev pub CString : Type 0
CString = List ℕ

-- The answer of a call that may fail, with the number of its error.
pub data Answer {ℓ} (A : Type ℓ) : Type ℓ where
  failed : (errno : ℕ) → Answer A
  done : A → Answer A

pub Answer-cases :
    {A : Type 0} (answer : Answer A)
    → ((errno : ℕ) × (answer ≡ failed errno)) ⊎ ((a : A) × (answer ≡ done a))
Answer-cases (failed errno) = inl (errno, refl)
Answer-cases (done a) = inr (a, refl)

pub done-injective : {A : Type 0} {a b : A} → done a ≡ done b → a ≡ b
done-injective e = cc

-- What a function gives to its script: a value or an exception.
pub data Completion {ℓ} (A : Type ℓ) : Type ℓ where
  returned : A → Completion A
  internal_error : (errno : ℕ) → Completion A
  type_error range_error : Completion A

-- The text of `dirname`, and whether it stands at the beginning of the path that it was given.
pub record Directory : Type 0 where
  pub text : CString
  pub in_place : Bool

pub record System : Type 0 where
  pub max_path_len : ℕ
  pub eloop : ℕ
  pub nofollow_symlink_errno : ℕ
  pub o_creat : ℕ
  pub stale_errno : ℕ
  pub strdup : CString → Option CString
  pub dirname : CString → Directory
  pub readlink : CString → (size : ℕ) → Answer (List ℕ)
  pub open_nofollow : CString → Answer ℕ
  pub open_file : CString → (flags : ℕ) → (mode : Option ℕ) → Answer ℕ
  pub read : (fd count : ℕ) → Answer (List ℕ)
  pub pread : (fd count : ℕ) → (position : ℤ) → Answer (List ℕ)
  pub opendir : CString → Answer (List CString)

abbrev slash : ℕ
slash = 47

-- The bytes before the first zero byte.
abbrev pub c_string : List ℕ → CString
c_string [] = []
c_string (zero ∷ bs) = []
c_string (suc b ∷ bs) = suc b ∷ c_string bs

unfoldable pub path_absolute : CString → Bool
path_absolute [] = false
path_absolute (b ∷ _) = b == slash

module _ (sys : System) where
  -- `dirname_a`: no string where there is no memory for a copy.
  unfoldable pub dirname_a : CString → Option CString
  dirname_a path = elim (sys.strdup path) [
    | none ↦ none
    | some path_copy ↦
        let dir = sys.dirname path_copy in
        if dir.in_place then some dir.text else sys.strdup dir.text
  ]

  -- `snprintf(out, MAXPATHLEN, "%s/%s", dir, name)`, where a null directory is undefined.
  unfoldable pub join : Option CString → CString → Result CString
  join none name = err undefined
  join (some dir) name = ok (take (sys.max_path_len - 1) (dir ++ (slash ∷ name)))

  -- `readlink_absolute`. The zero byte is written behind what was read.
  unfoldable pub readlink_absolute : CString → Result (Answer CString)
  unfolding dirname_a path_absolute join
  readlink_absolute path = elim (sys.readlink path sys.max_path_len) [
    | failed errno ↦ ok (failed errno)
    | done bytes ↦ do
      guard (ltb (length bytes) sys.max_path_len) undefined
      let name = c_string bytes
      if path_absolute name
          then ok (done name)
          else (do out ← join (dirname_a path) name; ok (done out))
  ]

  -- A round of the loop of `get_symlinks`, with the rest of the loop as an argument.
  unfoldable pub follow_link :
      (CString → List CString → Result (Answer (Unit {0}) × List CString))
      → CString
      → List CString
      → Result (Answer (Unit {0}) × List CString)
  unfolding readlink_absolute
  follow_link loop path names =
      let names = names ++ (path ∷ []) in
      elim (sys.open_nofollow path) [
        | done fd ↦ ok (done tt, names)
        | failed errno ↦
            if not (errno == sys.nofollow_symlink_errno) then ok (failed errno, names) else (do
              answer ← readlink_absolute path
              elim answer [ failed errno ↦ ok (failed errno, names) | done buf ↦ loop buf names ])
      ]

  -- `get_symlinks`, where `left` rounds are left.
  unfoldable pub symlinks_loop :
      (left : ℕ) → CString → List CString → Result (Answer (Unit {0}) × List CString)
  unfolding follow_link
  symlinks_loop zero path names = ok (failed sys.eloop, names)
  symlinks_loop (suc left) path names = follow_link (symlinks_loop left) path names

  unfoldable pub get_symlinks : CString → Result (Answer (Unit {0}) × List CString)
  unfolding symlinks_loop
  get_symlinks path = symlinks_loop 9 path []

  -- `getLinkedNames`
  unfoldable pub get_linked_names : CString → Result (Completion (List CString))
  unfolding get_symlinks
  get_linked_names path = do
    (ret, names) ← get_symlinks path
    elim ret [ failed errno ↦ ok (internal_error errno) | done _ ↦ ok (returned names) ]

  -- `openSync`. The bit is looked for in the mode.
  unfoldable pub open_sync : CString → (flags mode : ℤ) → Completion ℕ
  open_sync path flags mode =
      let asked =
        if (size_word mode / sys.o_creat) % 2 == 1
        then sys.open_file path (int_word flags) (some (int_word mode))
        else sys.open_file path (int_word flags) none in
      elim asked [ failed errno ↦ internal_error errno | done fd ↦ returned fd ]

-- Bytes written into a buffer, which must hold them.
unfoldable pub put_bytes : (at : ℕ) → (bytes buffer : List ℕ) → Result (List ℕ)
put_bytes at [] buffer = ok buffer
put_bytes at (b ∷ bs) [] = err undefined
put_bytes zero (b ∷ bs) (x ∷ xs) = do rest ← put_bytes zero bs xs; ok (b ∷ rest)
put_bytes (suc at) (b ∷ bs) (x ∷ xs) = do rest ← put_bytes at (b ∷ bs) xs; ok (x ∷ rest)

-- The same behind a pointer that may stand before the buffer.
unfoldable pub put_at : (offset : ℤ) → (bytes buffer : List ℕ) → Result (List ℕ)
unfolding put_bytes
put_at offset [] buffer = ok buffer
put_at (pos at) (b ∷ bs) buffer = put_bytes at (b ∷ bs) buffer
put_at (negsuc n) (b ∷ bs) buffer = err undefined

abbrev pub is_minus_one : ℤ → Bool
is_minus_one (pos n) = false
is_minus_one (negsuc n) = n == 0

module _ (sys : System) where
  -- What `read` or `pread` answered, in an `int`.
  unfoldable pub give_read :
      Answer (List ℕ) → (offset : ℤ) → (buffer : List ℕ) → Result (Completion ℤ × List ℕ)
  unfolding put_at
  give_read (failed errno) offset buffer = ok (internal_error errno, buffer)
  give_read (done bytes) offset buffer = do
    after ← put_at offset bytes buffer
    let nread = int_of (length bytes)
    ok (if is_minus_one nread then internal_error sys.stale_errno else returned nread, after)

  -- `readSync`, with the bytes of the array buffer afterwards. The sum of two `int64_t` may overflow,
  -- and is compared as a `size_t`.
  unfoldable pub read_sync :
      (fd : ℤ)
      → (buffer : Option (List ℕ)) → (offset length position : ℤ)
      → Result (Completion ℤ × Option (List ℕ))
  unfolding give_read
  read_sync fd none offset len position = ok (type_error, none)
  read_sync fd (some buffer) offset len position = do
    guard (fits_int64 (offset +ℤ len)) undefined
    let answer =
        if is_minus_one position
        then sys.read (int_word fd) (size_word len)
        else sys.pread (int_word fd) (size_word len) position
    if ltb (length buffer) (size_word (offset +ℤ len))
        then ok (range_error, some buffer)
        else (do (completion, after) ← give_read answer offset buffer; ok (completion, some after))

  -- The loop of `readdirSync`: `i`, a `uint32_t`, is the next index in the array.
  abbrev pub set_index : List CString → ℕ → CString → List CString
  set_index [] i name = name ∷ []
  set_index (x ∷ xs) zero name = name ∷ xs
  set_index (x ∷ xs) (suc i) name = x ∷ set_index xs i name

  unfoldable pub list_names : (i : ℕ) → (entries jsarray : List CString) → List CString
  list_names i [] jsarray = jsarray
  list_names i (name ∷ entries) jsarray =
      list_names (suc i % 2 ^ 32) entries (set_index jsarray i name)

  unfoldable pub readdir_sync : CString → Completion (List CString)
  unfolding list_names
  readdir_sync path = elim (sys.opendir path) [
    | failed errno ↦ internal_error errno
    | done entries ↦ returned (list_names 0 entries [])
  ]
