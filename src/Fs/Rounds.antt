-- ===== src/Fs/Rounds.antt =====
-- A round of the loop that follows symbolic links (js/fs.cc), by how it ends.
use neo_init_ware.Common.{
  ℕ, ◌≡◌, ◌∙◌, ◌==◌, ◌++◌, ap, refl, true, false, List, [], ◌∷◌, Result, Error, ok, err, Bool-cases,
  inl, inr, arith,
}
use neo_init_ware.Fs.{CString, Answer, failed, done, System, readlink_absolute, follow_link}

module _ (sys : System) where
  -- The path is a symbolic link to the other.
  pub record IsLink (path next : CString) : Type 0 where
    pub refused : sys.open_nofollow path ≡ failed sys.nofollow_symlink_errno
    pub text : readlink_absolute sys path ≡ ok (done next)

  -- The links between a path and the last one.
  pub data Chain : CString → List CString → CString → Type 0 where
    stop : {path : CString} → Chain path [] path
    link :
        {path next last : CString} {names : List CString}
        → IsLink path next
        → Chain next names last
        → Chain path (path ∷ names) last

  pub follow_link-IsLink :
      (loop : CString → List CString → Result (Answer (Unit {0}) × List CString))
      (path next : CString) (names : List CString)
      → IsLink path next
      → follow_link sys loop path names ≡ loop next (names ++ (path ∷ []))
  unfolding follow_link
  follow_link-IsLink loop path next names is_link =
      let same : (sys.nofollow_symlink_errno == sys.nofollow_symlink_errno) ≡ true = ground arith in
      rw (is_link.refused, follow_link) (rw (same, follow_link) (rw is_link.text refl))

  -- How a round ends: the file was opened, or an answer is an error, or the path is a link.
  pub data Round (path : CString) : Type 0 where
    opened : (fd : ℕ) → sys.open_nofollow path ≡ done fd → Round path
    refused :
        (errno : ℕ)
        → sys.open_nofollow path ≡ failed errno
        → (errno == sys.nofollow_symlink_errno) ≡ false
        → Round path
    unread :
        (errno : ℕ)
        → sys.open_nofollow path ≡ failed sys.nofollow_symlink_errno
        → readlink_absolute sys path ≡ ok (failed errno)
        → Round path
    stuck :
        (why : Error)
        → sys.open_nofollow path ≡ failed sys.nofollow_symlink_errno
        → readlink_absolute sys path ≡ err why
        → Round path
    leads : (next : CString) → IsLink path next → Round path

  after_read :
      (path : CString) (answer : Result (Answer CString))
      → sys.open_nofollow path ≡ failed sys.nofollow_symlink_errno
      → readlink_absolute sys path ≡ answer
      → Round path
  after_read path (err why) refuses reads = stuck why refuses reads
  after_read path (ok (failed errno)) refuses reads = unread errno refuses reads
  after_read path (ok (done next)) refuses reads =
      leads next (record { refused = refuses; text = reads })

  pub after_open :
      (path : CString) (answer : Answer ℕ) → sys.open_nofollow path ≡ answer → Round path
  after_open path (done fd) opens = opened fd opens
  after_open path (failed errno) opens = elim (Bool-cases (errno == sys.nofollow_symlink_errno)) [
    | inl same ↦
        let e : errno ≡ sys.nofollow_symlink_errno = ground arith in
        after_read path (readlink_absolute sys path) (opens ∙ ap failed e) refl
    | inr other ↦ refused errno opens other
  ]

  abbrev pub Loop : Type 0
  Loop = CString → List CString → Result (Answer (Unit {0}) × List CString)

  -- What a round gives, by how it ends.
  abbrev pub round_result :
      Loop
      → (path : CString) → List CString
      → Round path
      → Result (Answer (Unit {0}) × List CString)
  round_result loop path names (opened fd opens) = ok (done tt, names ++ (path ∷ []))
  round_result loop path names (refused errno opens other) = ok (failed errno, names ++ (path ∷ []))
  round_result loop path names (unread errno opens reads) = ok (failed errno, names ++ (path ∷ []))
  round_result loop path names (stuck why opens reads) = err why
  round_result loop path names (leads next is_link) = loop next (names ++ (path ∷ []))

  pub follow_link-Round :
      (loop : Loop) (path : CString) (names : List CString) (round : Round path)
      → follow_link sys loop path names ≡ round_result loop path names round
  unfolding follow_link
  follow_link-Round loop path names (opened fd opens) = rw (opens, follow_link) refl
  follow_link-Round loop path names (refused errno opens other) =
      rw (opens, follow_link) (rw (other, follow_link) refl)
  follow_link-Round loop path names (unread errno opens reads) =
      let same : (sys.nofollow_symlink_errno == sys.nofollow_symlink_errno) ≡ true = ground arith in
      rw (opens, follow_link) (rw (same, follow_link) (rw reads refl))
  follow_link-Round loop path names (stuck why opens reads) =
      let same : (sys.nofollow_symlink_errno == sys.nofollow_symlink_errno) ≡ true = ground arith in
      rw (opens, follow_link) (rw (same, follow_link) (rw reads refl))
  follow_link-Round loop path names (leads next is_link) =
      follow_link-IsLink loop path next names is_link
