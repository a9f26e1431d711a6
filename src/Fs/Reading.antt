-- ===== src/Fs/Reading.antt =====
-- What `readSync` writes into the script's buffer.
use neo_init_ware.Common.{
  ℕ, suc, ◌+◌, ◌-◌, ◌^◌, ◌%◌, ◌<◌, ◌≤◌, ◌≡◌, ◌≢◌, ◌>>=◌, >>=-runs, ltb, refl, true, false, Option,
  some, List, [], ◌∷◌, Result, ok, err, undefined, length, Bool-cases, inl, inr, if◌then◌else◌,
  arith, ℤ, pos, negsuc, fits_int64, size_word, int_word, int_of,
}
use neo_init_ware.Fs.{
  Answer, Answer-cases, failed, done, Completion, returned, internal_error, range_error, System,
  put_bytes, put_at, give_read, read_sync, is_minus_one,
}
use neo_init_ware.Fs.Writing.{Written, put_bytes-Written}

small_word : (n : ℕ) → n < 2 ^ 63 → size_word (pos n) ≡ n
small_word n small = omega (arith, small)

small_int : (n : ℕ) → n < 2 ^ 31 → int_of n ≡ pos n
small_int n small =
    let same : n % 2 ^ 32 ≡ n = omega (arith, small) in
    let low : ltb n (2 ^ 31) ≡ true = ground arith in rw (same, low) refl

-- What the kernel answers to the read that `readSync` asks for: at the file's position, or at a
-- position of the script's.
abbrev pub read_answer : System → (fd : ℤ) → (count : ℕ) → (position : ℤ) → Answer (List ℕ)
read_answer sys fd count position =
    if is_minus_one position
    then sys.read (int_word fd) count
    else sys.pread (int_word fd) count position

-- A read gives at most as many bytes as it was asked for, and fewer than 2 ^ 31.
pub record ReadsFew (sys : System) : Type 0 where
  pub few :
      (fd : ℤ) (count : ℕ) (position : ℤ) (bytes : List ℕ)
      → read_answer sys fd count position ≡ done bytes
      → (length bytes ≤ count) × (length bytes < 2 ^ 31)

-- How `readSync` ends.
pub data ReadEnds (answer : Answer (List ℕ)) (buffer : List ℕ) (at count : ℕ)
    : Result (Completion ℤ × Option (List ℕ)) → Type 0 where
  too_long :
      length buffer < at + count → ReadEnds answer buffer at count (ok (range_error, some buffer))
  refused :
      (errno : ℕ)
      → at + count ≤ length buffer
      → answer ≡ failed errno
      → ReadEnds answer buffer at count (ok (internal_error errno, some buffer))
  read_some :
      (bytes after : List ℕ)
      → at + count ≤ length buffer
      → answer ≡ done bytes
      → Written at bytes buffer after
      → ReadEnds answer buffer at count (ok (returned (pos (length bytes)), some after))

module _ (sys : System) where
  put_at-Written :
      (at : ℕ) (bytes buffer : List ℕ)
      → at + length bytes ≤ length buffer
      → (after : List ℕ) × (put_at (pos at) bytes buffer ≡ ok after) × Written at bytes buffer after
  unfolding put_at put_bytes
  put_at-Written at [] buffer fits = put_bytes-Written at [] buffer fits
  put_at-Written at (b ∷ bs) buffer fits = put_bytes-Written at (b ∷ bs) buffer fits

  give_read-Written :
      (at : ℕ) (bytes buffer : List ℕ)
      → at + length bytes ≤ length buffer
      → length bytes < 2 ^ 31
      → (after : List ℕ) × (give_read sys (done bytes) (pos at) buffer
          ≡ ok (returned (pos (length bytes)), after))
        × Written at bytes buffer after
  unfolding give_read
  give_read-Written at bytes buffer fits small =
      let (after, runs, w) = put_at-Written at bytes buffer fits in
      (
        after,
        >>=-runs (put_at (pos at) bytes buffer) _ runs (rw (small_int (length bytes) small) refl),
        w,
      )

  -- `readSync`, where the range fits the numbers and the buffer.
  read_sync-in_range :
      (fd position : ℤ) (buffer : List ℕ) (at count : ℕ)
      → at + count < 2 ^ 63
      → at + count ≤ length buffer
      → (r : Result (Completion ℤ × List ℕ))
      → give_read sys (read_answer sys fd count position) (pos at) buffer ≡ r
      → read_sync sys fd (some buffer) (pos at) (pos count) position
        ≡ (r >>= λ (c, after). ok (c, some after))
  unfolding read_sync
  read_sync-in_range fd position buffer at count small fits r gives =
      let fit : fits_int64 (pos (at + count)) ≡ true = ground arith in
      let word = small_word (at + count) small in
      let word_count = small_word count (omega (arith, small)) in
      let room : ltb (length buffer) (at + count) ≡ false = ground arith in
      rw (fit, read_sync) (rw (word, read_sync) (rw (room, word_count) (rw gives refl)))

  read_sync-too_long :
      (fd position : ℤ) (buffer : List ℕ) (at count : ℕ)
      → at + count < 2 ^ 63
      → length buffer < at + count
      → read_sync sys fd (some buffer) (pos at) (pos count) position ≡ ok (range_error, some buffer)
  unfolding read_sync
  read_sync-too_long fd position buffer at count small long =
      let fit : fits_int64 (pos (at + count)) ≡ true = ground arith in
      let word = small_word (at + count) small in
      let no_room : ltb (length buffer) (at + count) ≡ true = ground arith in
      rw (fit, read_sync) (rw (word, read_sync) (rw no_room refl))

-- Where offset and length are not negative and their sum is an `int64_t`, and the kernel gives no more
-- bytes than it is asked for, `readSync` ends in one of three ways: it refuses a range that does not
-- fit the buffer, or passes on the kernel's error, both with the buffer unchanged, or it returns how
-- many bytes were read, which then stand in the buffer from the offset on, and nothing else in it has
-- changed.
pub read_sync-ReadEnds :
    (sys : System) (fd position : ℤ) (buffer : List ℕ) (at count : ℕ)
    → ReadsFew sys
    → at + count < 2 ^ 63
    → ReadEnds
        (read_answer sys fd count position)
        buffer
        at
        count
        (read_sync sys fd (some buffer) (pos at) (pos count) position)
unfolding give_read
read_sync-ReadEnds sys fd position buffer at count few small =
    elim (Bool-cases (ltb (length buffer) (at + count))) [
      | inl long ↦
          rw (read_sync-too_long sys fd position buffer at count small (ground arith))
            (too_long (ground arith))
      | inr room ↦
          let fits : at + count ≤ length buffer = ground arith in
          elim (Answer-cases (read_answer sys fd count position)) [
            | inl (errno, failing) ↦
                rw
                  (read_sync-in_range sys fd position buffer at count small fits
                    (ok (internal_error errno, buffer)) (rw failing refl))
                  (refused errno fits failing)
            | inr (bytes, reads) ↦
                let (at_most, below) = few.few fd count position bytes reads in
                let (after, gives, w) =
                  give_read-Written sys at bytes buffer (omega (arith, at_most, fits)) below in
                rw
                  (read_sync-in_range sys fd position buffer at count small fits
                    (ok (returned (pos (length bytes)), after)) (rw reads gives))
                  (read_some bytes after fits reads w)
          ]
    ]

-- With a negative offset that the length makes up for, the range passes the test, and the first byte
-- that the kernel gives is written before the buffer.
pub read_sync_before_buffer :
    (sys : System) (fd position : ℤ) (buffer bytes : List ℕ) (n count : ℕ)
    → n < count
    → count < 2 ^ 63
    → count ≤ suc n + length buffer
    → read_answer sys fd count position ≡ done bytes
    → bytes ≢ []
    → read_sync sys fd (some buffer) (negsuc n) (pos count) position ≡ err undefined
unfolding read_sync give_read put_at
read_sync_before_buffer sys fd position buffer [] n count makes_up small fits reads some_read =
    absurd (some_read refl)
read_sync_before_buffer sys fd position buffer (b ∷ bytes) n count makes_up small fits reads
      some_read =
    let later : ltb n count ≡ true = ground arith in
    let fit : fits_int64 (pos (count - suc n)) ≡ true = ground arith in
    let word = small_word (count - suc n) (omega (arith, small)) in
    let word_count = small_word count small in
    let room : ltb (length buffer) (count - suc n) ≡ false = ground arith in
    rw (later, read_sync)
      (rw (fit, read_sync) (rw (word, read_sync) (rw (room, word_count) (rw reads refl))))
