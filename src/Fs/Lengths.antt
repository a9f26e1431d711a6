-- ===== src/Fs/Lengths.antt =====
-- The names that `get_symlinks` reads fit into its buffer.
use neo_init_ware.Common.{
  ℕ, zero, suc, ◌-◌, ◌<◌, ◌≤◌, ◌≡◌, ◌∙◌, ◌++◌, ◌>>=◌, >>=-eq-ok, ok-injective, ltb, ltb→lt, ap,
  refl, Option, none, some, List, [], ◌∷◌, Result, ok, length, length-take-le, All, Bool-cases, inl,
  inr, if◌then◌else◌, arith,
}
use neo_init_ware.Fs.{
  CString, Answer, Answer-cases, done-injective, done, returned, System, c_string, dirname_a,
  path_absolute, join, readlink_absolute, get_linked_names,
}
use neo_init_ware.Fs.Rounds.{Chain, stop, link}
use neo_init_ware.Fs.Links.{get_linked_names_iff}

c_string-le : (bs : List ℕ) → length (c_string bs) ≤ length bs
c_string-le [] = omega arith
c_string-le (zero ∷ bs) = omega arith
c_string-le (suc b ∷ bs) = omega (arith, c_string-le bs)

module _ (sys : System) where
  join-lt :
      (dir : Option CString) (name out : CString)
      → 0 < sys.max_path_len
      → join sys dir name ≡ ok out
      → length out < sys.max_path_len
  unfolding join
  join-lt none name out room joins = cc
  join-lt (some dir) name out room joins =
      let short = length-take-le (sys.max_path_len - 1) (dir ++ (47 ∷ name)) in
      rw (← ok-injective joins) (omega (arith, short, room))

  -- Where the guard holds, the text is the link's, or its end behind the path's directory.
  answer-lt :
      (path next : CString) (bytes : List ℕ)
      → length bytes < sys.max_path_len
      → ◌≡◌ {A = Result (Answer CString)}
          (if path_absolute (c_string bytes)
            then ok (done (c_string bytes))
            else (do out ← join sys (dirname_a sys path) (c_string bytes); ok (done out)))
          (ok (done next))
      → length next < sys.max_path_len
  answer-lt path next bytes fits run = elim (Bool-cases (path_absolute (c_string bytes))) [
    | inl absolute ↦
        let same : c_string bytes ≡ next = done-injective (ok-injective (rw absolute at run)) in
        rw (← same) (omega (arith, c_string-le bytes, fits))
    | inr relative ↦
        let (out, joins, gives) =
          >>=-eq-ok (join sys (dirname_a sys path) (c_string bytes)) _ (rw relative at run) in
        let same : out ≡ next = done-injective (ok-injective gives) in
        rw (← same) (join-lt (dirname_a sys path) (c_string bytes) out (omega (arith, fits)) joins)
  ]

  readlink_absolute-lt :
      (path next : CString)
      → readlink_absolute sys path ≡ ok (done next)
      → length next < sys.max_path_len
  unfolding readlink_absolute
  readlink_absolute-lt path next run = elim (Answer-cases (sys.readlink path sys.max_path_len)) [
    | inl (errno, failing) ↦ cc (rw (failing, readlink_absolute) at run)
    | inr (bytes, reads) ↦ elim (Bool-cases (ltb (length bytes) sys.max_path_len)) [
      | inl fits ↦
          answer-lt path next bytes (ltb→lt (length bytes) sys.max_path_len fits)
            (rw (fits, readlink_absolute) at (rw (reads, readlink_absolute) at run))
      | inr full ↦ cc (rw (full, readlink_absolute) at (rw (reads, readlink_absolute) at run))
    ]
  ]

  -- The names behind the first one on a chain.
  Chain-lt :
      (path last : CString) (visited : List CString)
      → Chain sys path visited last
      → (rest : List CString) × (visited ++ (last ∷ []) ≡ path ∷ rest)
        × (length rest ≡ length visited)
        × All (λ (name : CString). length name < sys.max_path_len) rest
  Chain-lt path last [] stop = ([], refl, refl, tt)
  Chain-lt path last (_ ∷ visited) (link {next = next} is_link chain) =
      let (rest, are, count, short) = Chain-lt next last visited chain in
      (
        next ∷ rest,
        ap (λ l. path ∷ l) are,
        ap suc count,
        (readlink_absolute-lt path next is_link.text, short),
      )

-- `getLinkedNames` returns the path that it is given and at most eight names after it, each of which
-- fits into the buffer with its zero byte.
pub get_linked_names_bounds :
    (sys : System) (path : CString) (names : List CString)
    → get_linked_names sys path ≡ ok (returned names)
    → (rest : List CString) × (names ≡ path ∷ rest)
      × (length rest ≤ 8)
      × All (λ (name : CString). length name < sys.max_path_len) rest
get_linked_names_bounds sys path names run =
    let (visited, last, fd, chain, opens, few, are) = (get_linked_names_iff sys path names).0 run in
    let (rest, split, count, short) = Chain-lt sys path last visited chain in
    (rest, are ∙ split, omega (arith, few, count), short)
