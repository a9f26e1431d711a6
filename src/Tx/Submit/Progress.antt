-- ===== src/Tx/Submit/Progress.antt =====
-- Job submission only adds: jobs, requirements, objects. What a job must have, and keeps.
use neo_init_ware.Common.{
  ℕ, ◌<◌, ◌≡◌, refl, String, true, some, List, [], ◌∷◌, All, contains, lookup, sym, ◌∙◌, ap,
}
use neo_init_ware.Objects.{Graph, Edge, has_flag}
use neo_init_ware.Tx.Model.{Job, Requirement, Transaction, Gen, jobs_at}
use neo_init_ware.Tx.Submit.{Visitor, visitors, edges_of}
use neo_init_ware.Objects.Resolve.{
  GraphGrows, GraphGrows-refl, GraphGrows-trans, IsLive, AliasesLive,
}

pub record JobGrows (b c : Job) : Type 0 where
  pub same_object : c.object ≡ b.object
  pub same_type : c.type ≡ b.type
  pub reqs : (r : ℕ) → contains r b.reqs ≡ true → contains r c.reqs ≡ true

pub record TxGrows (s t : Transaction) : Type 0 where
  pub listed : (p j : ℕ) → contains j (jobs_at p s) ≡ true → contains j (jobs_at p t) ≡ true
  pub jobs : (j : ℕ) (b : Job) → s.job j ≡ some b → (c : Job) × (t.job j ≡ some c) × JobGrows b c
  pub reqs : (r : ℕ) (q : Requirement) → s.req r ≡ some q → t.req r ≡ some q

pub JobGrows-refl : (b : Job) → JobGrows b b
JobGrows-refl b = record { same_object = refl; same_type = refl; reqs = λ r h. h }

pub TxGrows-refl : (s : Transaction) → TxGrows s s
TxGrows-refl s = record {
  listed = λ p j h. h;
  jobs = λ j b e. (b, e, JobGrows-refl b);
  reqs = λ r q e. e;
}

JobGrows-trans : {b c d : Job} → JobGrows b c → JobGrows c d → JobGrows b d
JobGrows-trans x y = record {
  same_object = y.same_object ∙ x.same_object;
  same_type = y.same_type ∙ x.same_type;
  reqs = λ r h. y.reqs r (x.reqs r h);
}

pub TxGrows-trans : {s t u : Transaction} → TxGrows s t → TxGrows t u → TxGrows s u
TxGrows-trans x y = record {
  listed = λ p j h. y.listed p j (x.listed p j h);
  jobs = λ j b e.
      let (c, at_t, f) = x.jobs j b e in
      let (d, at_u, g) = y.jobs j c at_t in (d, at_u, JobGrows-trans f g);
  reqs = λ r q e. y.reqs r q (x.reqs r q e);
}

-- The pointers of the heaps lie below the counters, and every name and job has a live object.
pub record IsFit (s : Gen) : Type 0 where
  pub names : AliasesLive s.graph
  pub jobs_below : (j : ℕ) (b : Job) → s.tx.job j ≡ some b → j < s.tx.next_job
  pub reqs_below : (r : ℕ) (q : Requirement) → s.tx.req r ≡ some q → r < s.tx.next_req
  pub homes : (j : ℕ) (b : Job) → s.tx.job j ≡ some b → IsLive s.graph b.object

-- What a visitor owes for an edge: the target's name resolves to an object that has a job of the
-- visitor's type, and the requiring job has a requirement on that job.
pub record Meets (s : Gen) (j : ℕ) (v : Visitor) (name : String) : Type 0 where
  pub object : ℕ
  pub target : ℕ
  pub target_job : Job
  pub requirer : Job
  pub link : ℕ
  pub requirement : Requirement
  pub resolves : lookup name s.graph.m_aliases ≡ some object
  pub is_listed : contains target (jobs_at object s.tx) ≡ true
  pub target_at : s.tx.job target ≡ some target_job
  pub has_type : target_job.type ≡ v.op
  pub requirer_at : s.tx.job j ≡ some requirer
  pub has_link : contains link requirer.reqs ≡ true
  pub link_at : s.tx.req link ≡ some requirement
  pub link_from : requirement.from ≡ j
  pub link_to : requirement.to ≡ target
  pub link_required : requirement.required ≡ v.is_required

abbrev pub MeetsAll : Gen → ℕ → Visitor → List Edge → Type 0
MeetsAll s j v = All (λ e. has_flag v.flag e ≡ true → Meets s j v e.to)

-- All that the job's type asks for is there, for every edge that leaves its object.
abbrev pub IsComplete : Gen → ℕ → Type 0
IsComplete s j =
    (b : Job)
    → s.tx.job j ≡ some b
    → All (λ v. MeetsAll s j v (edges_of b.object s.graph)) (visitors b.type)

pub record GenGrows (s t : Gen) : Type 0 where
  pub graph : GraphGrows s.graph t.graph
  pub tx : TxGrows s.tx t.tx

pub GenGrows-refl : (s : Gen) → GenGrows s s
GenGrows-refl s = record { graph = GraphGrows-refl s.graph; tx = TxGrows-refl s.tx }

pub GenGrows-trans : {s t u : Gen} → GenGrows s t → GenGrows t u → GenGrows s u
GenGrows-trans a b = record {
  graph = GraphGrows-trans a.graph b.graph;
  tx = TxGrows-trans a.tx b.tx;
}

pub All-map {ℓ κ μ} :
    {A : Type ℓ} (P : A → Type κ) (Q : A → Type μ)
    → ((a : A) → P a → Q a)
    → (xs : List A) → All P xs
    → All Q xs
All-map P Q f [] h = tt
All-map P Q f (x ∷ xs) h = (f x h.0, All-map P Q f xs h.1)

pub Meets-grows :
    {s t : Gen} (j : ℕ) (v : Visitor) (name : String)
    → GenGrows s t
    → Meets s j v name
    → Meets t j v name
Meets-grows j v name g m =
    let (c, c_at, c_grows) = g.tx.jobs m.target m.target_job m.target_at in
    let (d, d_at, d_grows) = g.tx.jobs j m.requirer m.requirer_at in
    record {
      object = m.object;
      target = m.target;
      target_job = c;
      requirer = d;
      link = m.link;
      requirement = m.requirement;
      resolves = g.graph.names name m.object m.resolves;
      is_listed = g.tx.listed m.object m.target m.is_listed;
      target_at = c_at;
      has_type = c_grows.same_type ∙ m.has_type;
      requirer_at = d_at;
      has_link = d_grows.reqs m.link m.has_link;
      link_at = g.tx.reqs m.link m.requirement m.link_at;
      link_from = m.link_from;
      link_to = m.link_to;
      link_required = m.link_required;
    }

pub MeetsAll-grows :
    {s t : Gen} (j : ℕ) (v : Visitor) (es : List Edge)
    → GenGrows s t
    → MeetsAll s j v es
    → MeetsAll t j v es
MeetsAll-grows j v es g = All-map _ _ (λ e meets flag. Meets-grows j v e.to g (meets flag)) es

pub edges_of-grows :
    {g h : Graph} (p : ℕ) → GraphGrows g h → IsLive g p → edges_of p h ≡ edges_of p g
edges_of-grows p grows (o, points) = rw (points, grows.objects p o points, edges_of)

pub IsComplete-grows :
    {s t : Gen} (j : ℕ) (b : Job)
    → IsFit s
    → GenGrows s t
    → s.tx.job j ≡ some b
    → IsComplete s j
    → IsComplete t j
IsComplete-grows {s} {t} j b fit g at complete c c_at =
    let (d, d_at, d_grows) = g.tx.jobs j b at in
    let same : d ≡ c = cc in
    let obj : c.object ≡ b.object = ap (λ x. x.object) (sym same) ∙ d_grows.same_object in
    let typ : c.type ≡ b.type = ap (λ x. x.type) (sym same) ∙ d_grows.same_type in
    rw (obj, typ, edges_of-grows b.object g.graph (fit.homes j b at))
      (All-map _ _ (λ v. MeetsAll-grows j v (edges_of b.object s.graph) g) (visitors b.type)
        (complete b at))
