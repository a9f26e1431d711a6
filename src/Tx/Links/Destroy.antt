-- ===== src/Tx/Links/Destroy.antt =====
-- The members of a deleted job: its own requirements, and the job itself.
use neo_init_ware.Common.{
  ℕ, ◌≡◌, ◌==◌, ◌∙◌, ap, sym, subst, Bool, true, false, Option, none, some, List, [], ◌∷◌, refl,
  contains, ◌||◌, update, ok, >>=-runs, Bool-cases, inl, inr, if◌then◌else◌, arith,
}
use neo_init_ware.Tx.Model.{Job, Requirement, Transaction, modify_job, load_job, load_req}
use neo_init_ware.Tx.Delete.{erase_req_on, delete_req, del_reqs_on, delete_reqs, delete_job}
use neo_init_ware.Tx.Links.{
  holds_on, IsLinked, IsOnce, reqs_of, on_of, reqs_in, on_in, is_from, is_on, from_is, to_is, blank,
  reqs_of-erase_req_on, on_of-erase_req_on, blank-modify_job,
}
use neo_init_ware.Tx.Links.Unlink.{freed_req, cut, cut-IsOnce}
use neo_init_ware.Tx.Links.Deletion.{one_fewer, gone_too, contains-first, del_reqs_on-OnGone}

-- The links of all but the job's own list of requirements; `rs` are those in memory that are from it.
record HalfLinked (j : ℕ) (rs : List ℕ) (tx : Transaction) : Type 0 where
  pub from : (k i : ℕ) → (j == k) ≡ false → contains i (reqs_of tx k) ≡ is_from tx i k
  pub on : (k i : ℕ) → contains i (on_of tx k) ≡ is_on tx i k
  pub left : (i : ℕ) → is_from tx i j ≡ contains i rs
  pub once : (k : ℕ) → IsOnce (reqs_of tx k)
  pub once_on : (k : ℕ) → IsOnce (on_of tx k)

requirement_from :
    (j : ℕ) (o : Option Requirement)
    → from_is j o ≡ true
    → (q : Requirement) × (o ≡ some q) × (q.from ≡ j)
requirement_from j none h = cc
requirement_from j (some q) h = (q, refl, ground arith)

module _ (j r : ℕ) (rs : List ℕ) (q : Requirement) (tx : Transaction)
    (half : HalfLinked j (r ∷ rs) tx) (at : tx.req r ≡ some q) (from_j : q.from ≡ j)
    (new : contains r rs ≡ false) where
  abbrev freed : Transaction
  freed = record (modify_job q.to (erase_req_on r) tx) { req = update tx.req r none }

  delete_req-frees : delete_req r tx ≡ ok freed
  unfolding delete_req
  delete_req-frees =
      let itself : (q.to == q.to) ≡ true = ground arith in
      let (b, live) = holds_on r (tx.job q.to) (half.on q.to r ∙ ap (to_is q.to) at ∙ itself) in
      >>=-runs (load_req r tx) _ {x = q} (rw (at, load_req) refl)
        (>>=-runs (load_job q.to tx) _ {x = b} (rw (live, load_job) refl) refl)

  now_from : (k i : ℕ) → is_from freed i k ≡ (if i == r then false else is_from tx i k)
  now_from k i = freed_req r i (tx.req i) (from_is k) refl

  now_on : (k i : ℕ) → is_on freed i k ≡ (if i == r then false else is_on tx i k)
  now_on k i = freed_req r i (tx.req i) (to_is k) refl

  others_from : (k i : ℕ) → (j == k) ≡ false → contains i (reqs_of freed k) ≡ is_from freed i k
  others_from k i other =
      let kept = ap (contains i) (reqs_of-erase_req_on q.to r k tx) ∙ half.from k i other in
      let not_r : is_from tx r k ≡ false = ap (from_is k) at ∙ ap (λ x. x == k) from_j ∙ other in
      elim (Bool-cases (i == r)) [
        | inl same ↦
            let r_is : r ≡ i = ground arith in
            let not_i : is_from tx i k ≡ false = subst (λ x. is_from tx x k ≡ false) r_is not_r in
            kept ∙ not_i ∙ sym (now_from k i ∙ rw same refl)
        | inr differs ↦ kept ∙ sym (now_from k i ∙ rw differs refl)
      ]

  freed-HalfLinked : HalfLinked j rs freed
  freed-HalfLinked = record {
    from = others_from;
    on = λ k i.
        ap (contains i) (on_of-erase_req_on q.to r k tx)
        ∙ cut r i (q.to == k) (on_of tx k) (λ other. half.on k r ∙ ap (to_is k) at ∙ other)
        ∙ ap (λ b. if i == r then false else b) (half.on k i)
        ∙ sym (now_on k i);
    left =
        λ i. one_fewer r i rs (is_from tx i j) (is_from freed i j) new (half.left i) (now_from j i);
    once = λ k. subst IsOnce (sym (reqs_of-erase_req_on q.to r k tx)) (half.once k);
    once_on = λ k.
        subst IsOnce (sym (on_of-erase_req_on q.to r k tx))
          (cut-IsOnce r (q.to == k) (on_of tx k) (half.once_on k));
  }

  freed-blank : (k : ℕ) → blank (freed.job k) ≡ blank (tx.job k)
  freed-blank k = blank-modify_job q.to (erase_req_on r) k tx (λ b. refl)

-- What is left when the requirements from `j` are gone.
record FromGone (j : ℕ) (tx after : Transaction) : Type 0 where
  pub half : HalfLinked j [] after
  pub req : (i : ℕ) → after.req i ≡ (if is_from tx i j then none else tx.req i)
  pub blanks : (k : ℕ) → blank (after.job k) ≡ blank (tx.job k)

delete_reqs-FromGone :
    (j : ℕ) (rs : List ℕ) (tx : Transaction)
    → HalfLinked j rs tx
    → IsOnce rs
    → (after : Transaction) × (delete_reqs rs tx ≡ ok after) × FromGone j tx after
unfolding delete_reqs
delete_reqs-FromGone j [] tx half once =
    (tx, refl, record { half = half; req = λ i. rw (half.left i) refl; blanks = λ k. refl })
delete_reqs-FromGone j (r ∷ rs) tx half (new, once) =
    let same : (r == r) ≡ true = ground arith in
    let (q, at, from_j) =
      requirement_from j (tx.req r) (half.left r ∙ contains-first r r rs same) in
    let u = freed j r rs q tx half at from_j new in
    let (after, runs, gone) =
      delete_reqs-FromGone j rs u (freed-HalfLinked j r rs q tx half at from_j new) once in
    (
      after,
      >>=-runs (delete_req r tx) _ (delete_req-frees j r rs q tx half at from_j new) runs,
      record {
        half = gone.half;
        req = λ i.
            gone_too r i (is_from tx i j) (is_from u i j) (tx.req i) (u.req i) (after.req i)
              (λ hit. half.left i ∙ contains-first i r rs hit)
              (now_from j r rs q tx half at from_j new j i) refl (gone.req i);
        blanks = λ k. gone.blanks k ∙ freed-blank j r rs q tx half at from_j new k;
      },
    )

blank-live :
    (o p : Option Job) (b : Job) → blank p ≡ blank o → o ≡ some b → (c : Job) × (p ≡ some c)
blank-live o none b same at = cc (ap blank at, same)
blank-live o (some c) b same at = (c, refl)

-- A job that has lost all its links is taken out of memory.
module _ (j : ℕ) (tx : Transaction) (half : HalfLinked j [] tx)
    (off : (i : ℕ) → is_on tx i j ≡ false) where
  abbrev removed : Transaction
  removed = record tx { job = update tx.job j none }

  removed-IsLinked : IsLinked removed
  removed-IsLinked = record { from = from; on = on; once = once; once_on = once_on }
    where
      from : (k i : ℕ) → contains i (reqs_of removed k) ≡ is_from removed i k
      from k i = elim (Bool-cases (j == k)) [
        | inl same ↦
            let k_is : j ≡ k = ground arith in
            rw same (sym (subst (λ x. is_from tx i x ≡ false) k_is (half.left i)))
        | inr other ↦ rw other (half.from k i other)
      ]

      on : (k i : ℕ) → contains i (on_of removed k) ≡ is_on removed i k
      on k i = elim (Bool-cases (j == k)) [
        | inl same ↦
            let k_is : j ≡ k = ground arith in
            rw same (sym (subst (λ x. is_on tx i x ≡ false) k_is (off i)))
        | inr other ↦ rw other (half.on k i)
      ]

      once : (k : ℕ) → IsOnce (reqs_of removed k)
      once k = elim (Bool-cases (j == k)) [
        | inl same ↦ rw same tt
        | inr other ↦ rw other (half.once k)
      ]

      once_on : (k : ℕ) → IsOnce (on_of removed k)
      once_on k = elim (Bool-cases (j == k)) [
        | inl same ↦ rw same tt
        | inr other ↦ rw other (half.once_on k)
      ]

off_after :
    (b c : Bool) (j : ℕ) (o u v : Option Requirement)
    → b ≡ to_is j o
    → u ≡ (if b then none else o)
    → v ≡ (if c then none else u)
    → to_is j v ≡ false
off_after true true j o u v is cleared ends = ap (to_is j) ends
off_after true false j o u v is cleared ends = ap (to_is j) (ends ∙ cleared)
off_after false true j o u v is cleared ends = ap (to_is j) ends
off_after false false j o u v is cleared ends = ap (to_is j) (ends ∙ cleared) ∙ sym is

both_gone :
    (b : Bool) (j : ℕ) (o u v : Option Requirement)
    → u ≡ (if b then none else o)
    → v ≡ (if from_is j u then none else u)
    → v ≡ (if b || from_is j o then none else o)
both_gone true j o u v cleared ends = ends ∙ ap (λ x. if from_is j x then none else x) cleared
both_gone false j o u v cleared ends = ends ∙ ap (λ x. if from_is j x then none else x) cleared

-- In a transaction whose links agree with its requirements, the deletion of a job in memory returns:
-- no pointer that it follows is dangling. The links agree afterwards, the job is out of memory, and so
-- are just the requirements that were on it or from it; of the other jobs only the links have changed.
pub delete_job-IsLinked :
    (j : ℕ) (tx : Transaction) (b : Job)
    → IsLinked tx
    → tx.job j ≡ some b
    → (after : Transaction) × (delete_job j tx ≡ ok after)
      × IsLinked after
      × (after.job j ≡ none)
      × ((k : ℕ) → (j == k) ≡ false → blank (after.job k) ≡ blank (tx.job k))
      × ((i : ℕ) → after.req i ≡ (if is_on tx i j || is_from tx i j then none else tx.req i))
unfolding delete_job
delete_job-IsLinked j tx b linked at =
    let on_it : (i : ℕ) → is_on tx i j ≡ contains i b.reqs_on =
      λ i. sym (linked.on j i) ∙ ap (λ o. contains i (on_in o)) at in
    let (t1, runs1, gone1) =
      del_reqs_on-OnGone j b.reqs_on tx linked (subst (λ o. IsOnce (on_in o)) at (linked.once_on j))
        on_it in
    let (c, c_at) = blank-live (tx.job j) (t1.job j) b (gone1.blanks j) at in
    let half : HalfLinked j c.reqs t1 = record {
      from = λ k i other. gone1.linked.from k i;
      on = gone1.linked.on;
      left = λ i. sym (gone1.linked.from j i) ∙ ap (λ o. contains i (reqs_in o)) c_at;
      once = gone1.linked.once;
      once_on = gone1.linked.once_on;
    } in
    let (t2, runs2, gone2) =
      delete_reqs-FromGone j c.reqs t1 half
        (subst (λ o. IsOnce (reqs_in o)) c_at (gone1.linked.once j)) in
    let off : (i : ℕ) → is_on t2 i j ≡ false = λ i.
      off_after (is_on tx i j) (is_from t1 i j) j (tx.req i) (t1.req i) (t2.req i) refl
        (gone1.req i) (gone2.req i) in
    let itself : (j == j) ≡ true = ground arith in
    (
      removed j t2 gone2.half off,
      >>=-runs (load_job j tx) _ {x = b} (rw (at, load_job) refl) (
          >>=-runs (del_reqs_on j b.reqs_on tx) _ runs1 (
            >>=-runs (load_job j t1) _ {x = c} (rw (c_at, load_job) refl)
              (>>=-runs (delete_reqs c.reqs t1) _ runs2 refl))),
      removed-IsLinked j t2 gone2.half off,
      rw itself refl,
      λ k other. rw other (gone2.blanks k ∙ gone1.blanks k),
      λ i. both_gone (is_on tx i j) j (tx.req i) (t1.req i) (t2.req i) (gone1.req i) (gone2.req i),
    )
