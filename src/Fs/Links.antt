-- ===== src/Fs/Links.antt =====
-- The symbolic links that `get_symlinks` follows.
use neo_init_ware.Common.{
  ℕ, zero, suc, ◌+◌, ◌-◌, ◌<◌, ◌≡◌, ◌↔◌, ◌∙◌, ◌++◌, >>=-eq-ok, >>=-runs, sym, ap, refl, subst, List,
  [], ◌∷◌, Result, ok, length, append_one, append_none, arith,
}
use neo_init_ware.Fs.{
  CString, Answer, failed, done, Completion, returned, internal_error, System, symlinks_loop,
  get_symlinks, get_linked_names,
}
use neo_init_ware.Fs.Rounds.{
  Chain, link, stop, Round, opened, refused, unread, stuck, leads, after_open, round_result,
  follow_link-Round, follow_link-IsLink,
}

pair_eq : {A B : Type 0} {a b : A} {c d : B} → a ≡ b → c ≡ d → ◌≡◌ {A = A × B} (a, c) (b, d)
pair_eq p q = cc

module _ (sys : System) where
  symlinks_loop-Chain :
      (left : ℕ) (path : CString) (visited : List CString) (last : CString) (names : List CString)
      → Chain sys path visited last
      → symlinks_loop sys (length visited + left) path names
        ≡ symlinks_loop sys left last (names ++ visited)
  unfolding symlinks_loop
  symlinks_loop-Chain left path [] last names stop =
      let none_more : 0 + left ≡ left = omega arith in rw (append_none names, none_more) refl
  symlinks_loop-Chain left path (_ ∷ visited) last names (link {next = next} is_link rest) =
      let one_more : suc (length visited) + left ≡ suc (length visited + left) = omega arith in
      rw one_more (
        follow_link-IsLink sys (symlinks_loop sys (length visited + left)) path next names is_link
        ∙ symlinks_loop-Chain left next visited last (names ++ (path ∷ [])) rest
        ∙ ap (symlinks_loop sys left last) (append_one names path visited))

  -- A loop that ends well has followed a chain to a file that opens.
  record Opens (left : ℕ) (path : CString) (names out : List CString) : Type 0 where
    pub visited : List CString
    pub last : CString
    pub fd : ℕ
    pub chain : Chain sys path visited last
    pub opens : sys.open_nofollow last ≡ done fd
    pub few : length visited < left
    pub collected : out ≡ names ++ (visited ++ (last ∷ []))

  Round-Opens :
      (left : ℕ) (path : CString) (names out : List CString) (round : Round sys path)
      → ((next : CString)
          → symlinks_loop sys left next (names ++ (path ∷ [])) ≡ ok (done tt, out)
          → Opens left next (names ++ (path ∷ [])) out)
      → round_result sys (symlinks_loop sys left) path names round ≡ ok (done tt, out)
      → Opens (suc left) path names out
  Round-Opens left path names out (opened fd opens) later run = record {
    visited = [];
    last = path;
    fd = fd;
    chain = stop;
    opens = opens;
    few = omega arith;
    collected = cc;
  }
  Round-Opens left path names out (refused errno opens other) later run = cc
  Round-Opens left path names out (unread errno opens reads) later run = cc
  Round-Opens left path names out (stuck why opens reads) later run = cc
  Round-Opens left path names out (leads next is_link) later run =
      let rest = later next run in
      record {
        visited = path ∷ rest.visited;
        last = rest.last;
        fd = rest.fd;
        chain = link is_link rest.chain;
        opens = rest.opens;
        few = omega (arith, rest.few);
        collected = rest.collected ∙ append_one names path (rest.visited ++ (rest.last ∷ []));
      }

  symlinks_loop-Opens :
      (left : ℕ) (path : CString) (names out : List CString)
      → symlinks_loop sys left path names ≡ ok (done tt, out)
      → Opens left path names out
  unfolding symlinks_loop
  symlinks_loop-Opens zero path names out run = cc
  symlinks_loop-Opens (suc left) path names out run =
      let round = after_open sys path (sys.open_nofollow path) refl in
      Round-Opens left path names out round
        (λ next. symlinks_loop-Opens left next (names ++ (path ∷ [])) out)
        (sym (follow_link-Round sys (symlinks_loop sys left) path names round) ∙ run)

  symlinks_loop-found :
      (left : ℕ) (path last : CString) (visited : List CString) (fd : ℕ)
      → Chain sys path visited last
      → sys.open_nofollow last ≡ done fd
      → symlinks_loop sys (length visited + suc left) path [] ≡ ok (done tt, visited ++ (last ∷ []))
  unfolding symlinks_loop
  symlinks_loop-found left path last visited fd chain opens =
      symlinks_loop-Chain (suc left) path visited last [] chain
      ∙ follow_link-Round sys (symlinks_loop sys left) last visited (opened fd opens)

  linked_names_found :
      (path last : CString) (visited : List CString) (fd : ℕ)
      → Chain sys path visited last
      → sys.open_nofollow last ≡ done fd
      → length visited < 9
      → get_linked_names sys path ≡ ok (returned (visited ++ (last ∷ [])))
  unfolding get_linked_names get_symlinks
  linked_names_found path last visited fd chain opens few =
      let nine : length visited + suc (8 - length visited) ≡ 9 = omega (arith, few) in
      let runs : symlinks_loop sys 9 path [] ≡ ok (done tt, visited ++ (last ∷ [])) =
        subst (λ n. symlinks_loop sys n path [] ≡ ok (done tt, visited ++ (last ∷ []))) nine
          (symlinks_loop-found (8 - length visited) path last visited fd chain opens) in
      >>=-runs (symlinks_loop sys 9 path []) _ runs refl

  -- The call returns names exactly where the loop ends well.
  returned_names :
      (ret : Answer (Unit {0})) (found names : List CString)
      → ◌≡◌ {A = Result (Completion (List CString))}
          (elim ret [ failed errno ↦ ok (internal_error errno) | done _ ↦ ok (returned found) ])
          (ok (returned names))
      → (ret ≡ done tt) × (found ≡ names)
  returned_names (failed errno) found names gives = cc
  returned_names (done _) found names gives = (refl, cc)

-- The names that `getLinkedNames` returns are those of the symbolic links from the path on, in
-- their order, at most eight, and of the file that the last of them leads to and that opens.
pub get_linked_names_iff :
    (sys : System) (path : CString) (names : List CString)
    → (get_linked_names sys path ≡ ok (returned names)) ↔ (
        (visited : List CString) × (last : CString) × (fd : ℕ) × Chain sys path visited last
        × (sys.open_nofollow last ≡ done fd)
        × (length visited < 9)
        × (names ≡ visited ++ (last ∷ [])))
unfolding get_linked_names get_symlinks
get_linked_names_iff sys path names = (
  λ run.
      let ((ret, found), loops, gives) = >>=-eq-ok (symlinks_loop sys 9 path []) _ run in
      let (well, same) = returned_names sys ret found names gives in
      let o = symlinks_loop-Opens sys 9 path [] names (loops ∙ ap ok (pair_eq well same)) in
      (o.visited, o.last, o.fd, o.chain, o.opens, o.few, o.collected),
  λ (visited, last, fd, chain, opens, few, are).
      rw are (linked_names_found sys path last visited fd chain opens few),
)

module _ (sys : System) where
  symlinks_loop-ends :
      (path last : CString) (visited : List CString)
      → Chain sys path visited last
      → symlinks_loop sys (length visited + 0) path [] ≡ ok (failed sys.eloop, visited)
  unfolding symlinks_loop
  symlinks_loop-ends path last visited chain = symlinks_loop-Chain sys 0 path visited last [] chain

-- A path that leads through nine symbolic links is refused with ELOOP, whatever the ninth leads to.
pub get_linked_names_loops :
    (sys : System) (path last : CString) (visited : List CString)
    → Chain sys path visited last
    → length visited ≡ 9
    → get_linked_names sys path ≡ ok (internal_error sys.eloop)
unfolding get_linked_names get_symlinks
get_linked_names_loops sys path last visited chain nine =
    let rounds : length visited + 0 ≡ 9 = omega (arith, nine) in
    let runs : symlinks_loop sys 9 path [] ≡ ok (failed sys.eloop, visited) =
      subst (λ n. symlinks_loop sys n path [] ≡ ok (failed sys.eloop, visited)) rounds
        (symlinks_loop-ends sys path last visited chain) in
    >>=-runs (symlinks_loop sys 9 path []) _ runs refl
