-- ===== src/Tx/Order/Walks.antt =====
-- The ordering of a transaction's objects: one object waits for another if an After edge leads from
-- it to a name that has a job.
use neo_init_ware.Common.{ℕ, ◌≡◌, ◌≢◌, String, true, none, some, lookup, ◌⊎◌, inl, inr, refl}
use neo_init_ware.Objects.{Graph, Edge, has_flag}
use neo_init_ware.Objects.EdgeType
use neo_init_ware.Objects.Edges.{Owns}
use neo_init_ware.Tx.Model.{Transaction, job_for_name}
use neo_init_ware.Tx.Submit.{edges_of}

module _ (g : Graph) (tx : Transaction) where
  -- The edge makes its object wait for `q`.
  pub record Leads (e : Edge) (q : ℕ) : Type 0 where
    pub is_after : has_flag EdgeType.after e ≡ true
    pub has_job : job_for_name g e.to tx ≢ none
    pub resolves : lookup e.to g.m_aliases ≡ some q

  pub record Waits (p q : ℕ) : Type 0 where
    pub edge : Edge
    pub owns : Owns edge (edges_of p g)
    pub leads : Leads edge q

  pub data Reach (p : ℕ) : ℕ → Type 0 where
    here : Reach p p
    next : {q r : ℕ} → Reach p q → Waits q r → Reach p r

  pub Reach-first : (p c q : ℕ) → Waits p c → Reach c q → Reach p q
  Reach-first p c q w here = next here w
  Reach-first p c q w (next r v) = next (Reach-first p c _ w r) v

  -- `q` comes after `p` on a walk of one step or more.
  pub record Follows (p q : ℕ) : Type 0 where
    pub via : ℕ
    pub step : Waits p via
    pub walk : Reach via q

  abbrev pub OnCycle : ℕ → Type 0
  OnCycle q = Follows q q

  pub Follows-next : (p q r : ℕ) → Follows p q → Waits q r → Follows p r
  Follows-next p q r f w = record { via = f.via; step = f.step; walk = next f.walk w }

  -- A walk ends where it begins, or makes a first step.
  pub Reach-cases : (p q : ℕ) → Reach p q → (p ≡ q) ⊎ Follows p q
  Reach-cases p q here = inl refl
  Reach-cases p q (next {q = m} r w) = elim (Reach-cases p m r) [
    | inl same ↦ inr (record { via = q; step = rw same w; walk = here })
    | inr f ↦ inr (Follows-next p m q f w)
  ]

-- Every name that has a job leads to an object.
abbrev pub IsClosed : Graph → Transaction → Type 0
IsClosed g tx =
    (n : String) → job_for_name g n tx ≢ none → (p : ℕ) × (lookup n g.m_aliases ≡ some p)
