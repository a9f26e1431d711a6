-- ===== src/Tests/Fs.antt =====
-- Files of a small system: "default.target" is a link to "/b", which is a file, and "z" a link to itself.
use neo_init_ware.Common.{
  ℕ, zero, suc, ◌^◌, ◌<◌, ◌≤◌, ◌≡◌, ◌↔◌, ◌==◌, ◌++◌, refl, subst, false, none, some, List, [], ◌∷◌,
  ok, err, undefined, length, All, take, if◌then◌else◌, ℤ, pos, negsuc, arith,
}
use neo_init_ware.Fs.{
  CString, done-injective, failed, done, returned, internal_error, System, readlink_absolute,
  get_linked_names, open_sync, read_sync, readdir_sync,
}
use neo_init_ware.Fs.Rounds.{Chain, IsLink, stop, link}
use neo_init_ware.Fs.Links.{get_linked_names_iff, get_linked_names_loops}
use neo_init_ware.Fs.Lengths.{get_linked_names_bounds}
use neo_init_ware.Fs.Reading.{
  ReadsFew, ReadEnds, read_answer, read_sync-ReadEnds, read_sync_before_buffer,
}

abbrev a : CString
a = 97 ∷ []

abbrev b : CString
b = 47 ∷ 98 ∷ []

abbrev z : CString
z = 122 ∷ []

-- The last byte of a name tells the files apart.
abbrev last_byte : CString → ℕ
last_byte [] = 0
last_byte (c ∷ []) = c
last_byte (c ∷ d ∷ cs) = last_byte (d ∷ cs)

abbrev files : System
files = record {
  max_path_len = 16;
  eloop = 40;
  nofollow_symlink_errno = 40;
  o_creat = 64;
  stale_errno = 0;
  strdup = λ s. some s;
  dirname = λ s. record { text = 46 ∷ []; in_place = false };
  readlink = λ path size. if last_byte path == 97 then done b else done z;
  open_nofollow = λ path. if last_byte path == 98 then done 3 else failed 40;
  open_file = λ path flags mode. elim mode [ none ↦ failed 2 | some _ ↦ done 5 ];
  read = λ fd count. done (take count (7 ∷ 8 ∷ []));
  pread = λ fd count position. failed 29;
  opendir = λ path. done (a ∷ b ∷ []);
}

-- A script that sets O_CREAT in the flags does not pass its mode on.
creates_by_mode :
    (open_sync files a (pos 64) (pos 0) ≡ internal_error 2)
    × (open_sync files a (pos 0) (pos 64) ≡ returned 5)
unfolding open_sync
creates_by_mode = (refl, refl)

lists_all : readdir_sync files a ≡ returned (a ∷ b ∷ [])
unfolding readdir_sync
lists_all = refl

reads_two :
    read_sync files (pos 3) (some (0 ∷ 0 ∷ 0 ∷ [])) (pos 1) (pos 2) (negsuc 0)
    ≡ ok (returned (pos 2), some (0 ∷ 7 ∷ 8 ∷ []))
unfolding read_sync
reads_two = refl

a-IsLink : IsLink files a b
unfolding readlink_absolute
a-IsLink = record { refused = refl; text = refl }

get_linked_names_iff_example : (get_linked_names files a ≡ ok (returned (a ∷ b ∷ []))) ↔ (
    (visited : List CString) × (last : CString) × (fd : ℕ) × Chain files a visited last
    × (files.open_nofollow last ≡ done fd)
    × (length visited < 9)
    × (a ∷ b ∷ [] ≡ visited ++ (last ∷ [])))
get_linked_names_iff_example = get_linked_names_iff files a (a ∷ b ∷ [])

get_linked_names_bounds_example :
    (rest : List CString) × (a ∷ b ∷ [] ≡ a ∷ rest)
    × (length rest ≤ 8)
    × All (λ (name : CString). length name < files.max_path_len) rest
unfolding get_linked_names
get_linked_names_bounds_example = get_linked_names_bounds files a (a ∷ b ∷ []) refl

abbrev dot_z : CString
dot_z = 46 ∷ 47 ∷ 122 ∷ []

dot_z-IsLink : IsLink files dot_z dot_z
unfolding readlink_absolute
dot_z-IsLink = record { refused = refl; text = refl }

abbrev rounds : (n : ℕ) → List CString
rounds zero = []
rounds (suc n) = dot_z ∷ rounds n

rounds-Chain : (n : ℕ) → Chain files dot_z (rounds n) dot_z
rounds-Chain zero = stop
rounds-Chain (suc n) = link dot_z-IsLink (rounds-Chain n)

get_linked_names_loops_example : get_linked_names files dot_z ≡ ok (internal_error 40)
get_linked_names_loops_example =
    get_linked_names_loops files dot_z dot_z (rounds 9) (rounds-Chain 9) refl

abbrev text : List ℕ
text = 7 ∷ 8 ∷ []

two_bytes : (n : ℕ) → (length (take n text) ≤ n) × (length (take n text) < 2 ^ 31)
two_bytes zero = (omega arith, omega arith)
two_bytes (suc zero) = (omega arith, omega arith)
two_bytes (suc (suc zero)) = (omega arith, omega arith)
two_bytes (suc (suc (suc n))) = (omega arith, omega arith)

files-ReadsFew : ReadsFew files
files-ReadsFew = record { few = few }
  where
    few :
        (fd : ℤ) (count : ℕ) (position : ℤ) (bytes : List ℕ)
        → read_answer files fd count position ≡ done bytes
        → (length bytes ≤ count) × (length bytes < 2 ^ 31)
    few fd count (pos n) bytes reads = absurd (cc)
    few fd count (negsuc zero) bytes reads =
        let same : take count text ≡ bytes = done-injective reads in
        subst (λ bs. (length bs ≤ count) × (length bs < 2 ^ 31)) same (two_bytes count)
    few fd count (negsuc (suc n)) bytes reads =
        let other : (suc n == 0) ≡ false = ground arith in absurd (ground arith)

read_sync-ReadEnds_example :
    ReadEnds
      (read_answer files (pos 3) 2 (negsuc 0))
      (0 ∷ 0 ∷ 0 ∷ [])
      1
      2
      (read_sync files (pos 3) (some (0 ∷ 0 ∷ 0 ∷ [])) (pos 1) (pos 2) (negsuc 0))
read_sync-ReadEnds_example =
    read_sync-ReadEnds files (pos 3) (negsuc 0) (0 ∷ 0 ∷ 0 ∷ []) 1 2 files-ReadsFew (omega arith)

read_sync_before_buffer_example :
    read_sync files (pos 3) (some (0 ∷ [])) (negsuc 0) (pos 2) (negsuc 0) ≡ err undefined
read_sync_before_buffer_example =
    read_sync_before_buffer files (pos 3) (negsuc 0) (0 ∷ []) (7 ∷ 8 ∷ []) 0 2 (omega arith)
      (omega arith) (omega arith) refl (λ e. cc)
