-- ===== src/Tx/Links/Grow.antt =====
-- What makes a transaction grow keeps its links: a new job, a new requirement, a mark on a job.
use neo_init_ware.Common.{
  ℕ, ◌≡◌, ◌≤◌, ◌==◌, ◌∙◌, ap, sym, subst, Bool, true, false, Option, none, some, List, [], refl,
  contains, Bool-cases, inl, inr, if◌then◌else◌, arith,
}
use neo_init_ware.Tx.JobType.{JobType}
use neo_init_ware.Tx.Model.{Job, Transaction, new_job, modify_job, empty_tx}
use neo_init_ware.Tx.Submit.{emplace_job}
use neo_init_ware.Tx.Links.{
  IsLinked, IsOnce, reqs_of, on_of, reqs_in, on_in, from_is, to_is, changed,
}

-- The links agree, and pointers that have not been given out are to no memory.
pub record IsSafe (tx : Transaction) : Type 0 where
  pub linked : IsLinked tx
  pub new_jobs : (k : ℕ) → tx.next_job ≤ k → tx.job k ≡ none
  pub new_reqs : (i : ℕ) → tx.next_req ≤ i → tx.req i ≡ none

abbrev pub IsLiveJob : ℕ → Transaction → Type 0
IsLiveJob k tx = (b : Job) × (tx.job k ≡ some b)

-- A safe transaction in which every job is still in memory.
pub record Grows (tx after : Transaction) : Type 0 where
  pub safe : IsSafe after
  pub lives : (k : ℕ) → IsLiveJob k tx → IsLiveJob k after

pub Grows-then : {a b c : Transaction} → Grows a b → Grows b c → Grows a c
Grows-then x y = record { safe = y.safe; lives = λ k live. y.lives k (x.lives k live) }

pub Grows-same : (tx : Transaction) → IsSafe tx → Grows tx tx
Grows-same tx safe = record { safe = safe; lives = λ k live. live }

pub empty_tx-IsSafe : IsSafe empty_tx
empty_tx-IsSafe = record {
  linked = record { from = λ j r. refl; on = λ j r. refl; once = λ j. tt; once_on = λ j. tt };
  new_jobs = λ k h. refl;
  new_reqs = λ i h. refl;
}

-- The lists and the requirements are the same.
same_lists-IsLinked :
    (tx after : Transaction)
    → ((k : ℕ) → reqs_of after k ≡ reqs_of tx k)
    → ((k : ℕ) → on_of after k ≡ on_of tx k)
    → ((i : ℕ) → after.req i ≡ tx.req i)
    → IsLinked tx
    → IsLinked after
same_lists-IsLinked tx after reqs ons req linked = record {
  from = λ k i. ap (contains i) (reqs k) ∙ linked.from k i ∙ sym (ap (from_is k) (req i));
  on = λ k i. ap (contains i) (ons k) ∙ linked.on k i ∙ sym (ap (to_is k) (req i));
  once = λ k. subst IsOnce (sym (reqs k)) (linked.once k);
  once_on = λ k. subst IsOnce (sym (ons k)) (linked.once_on k);
}

changed_list :
    (get : Option Job → List ℕ) (f : Job → Job)
    → ((b : Job) → get (some (f b)) ≡ get (some b))
    → (c : Bool) (o : Option Job) → get (if c then changed f o else o) ≡ get o
changed_list get f same true none = refl
changed_list get f same true (some b) = same b
changed_list get f same false o = refl

changed_live :
    (f : Job → Job) (c : Bool) (o : Option Job) (b : Job)
    → o ≡ some b
    → (d : Job) × ((if c then changed f o else o) ≡ some d)
changed_live f true none b at = cc
changed_live f true (some d) b at = (f d, refl)
changed_live f false o b at = (b, at)

changed-none :
    (f : Job → Job) (c : Bool) (o : Option Job) → o ≡ none → (if c then changed f o else o) ≡ none
changed-none f true none at = refl
changed-none f true (some d) at = cc
changed-none f false o at = at

pub modify_job-Grows :
    (j : ℕ) (f : Job → Job) (tx : Transaction)
    → ((b : Job) → (f b).reqs ≡ b.reqs)
    → ((b : Job) → (f b).reqs_on ≡ b.reqs_on)
    → IsSafe tx
    → Grows tx (modify_job j f tx)
modify_job-Grows j f tx reqs ons safe = record {
  safe = record {
    linked =
        same_lists-IsLinked tx (modify_job j f tx)
          (λ k. changed_list reqs_in f reqs (j == k) (tx.job k))
          (λ k. changed_list on_in f ons (j == k) (tx.job k)) (λ i. refl) safe.linked;
    new_jobs = λ k above. changed-none f (j == k) (tx.job k) (safe.new_jobs k above);
    new_reqs = safe.new_reqs;
  };
  lives = λ k (b, at). changed_live f (j == k) (tx.job k) b at;
}

placed_list :
    (get : Option Job → List ℕ) (b : Job) (c : Bool) (o : Option Job)
    → get (some b) ≡ []
    → get none ≡ []
    → (c ≡ true → o ≡ none)
    → get (if c then some b else o) ≡ get o
placed_list get b true o empty nothing new = empty ∙ sym (ap get (new refl) ∙ nothing)
placed_list get b false o empty nothing new = refl

pub emplace_job-Grows :
    (p : ℕ) (op : JobType) (tx : Transaction)
    → IsSafe tx
    → Grows tx (emplace_job p op tx) × IsLiveJob tx.next_job (emplace_job p op tx)
unfolding emplace_job
emplace_job-Grows p op tx safe = (
  record {
    safe = record {
      linked =
          same_lists-IsLinked tx (emplace_job p op tx)
            (λ k.
              placed_list reqs_in (new_job p op) (tx.next_job == k) (tx.job k) refl refl (new k))
            (λ k. placed_list on_in (new_job p op) (tx.next_job == k) (tx.job k) refl refl (new k))
            (λ i. refl) safe.linked;
      new_jobs = λ k above.
          let other : (tx.next_job == k) ≡ false = ground arith in
          rw other (safe.new_jobs k (omega (arith, above)));
      new_reqs = safe.new_reqs;
    };
    lives = λ k (b, at). elim (Bool-cases (tx.next_job == k)) [
      | inl same ↦ (new_job p op, rw same refl)
      | inr other ↦ (b, rw other at)
    ];
  },
  (new_job p op, let same : (tx.next_job == tx.next_job) ≡ true = ground arith in rw same refl),
)
  where
    new : (k : ℕ) → (tx.next_job == k) ≡ true → tx.job k ≡ none
    new k same = safe.new_jobs k (ground arith)
