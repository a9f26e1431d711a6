-- ===== src/Tx/Order/Search.antt =====
-- `object_creates_cycle` decides whether an ordering cycle can be reached.
use neo_init_ware.Common.{
  sum_below, sum_below-lt, live-lt, ℕ, zero, suc, ◌≡◌, ◌≢◌, ◌<◌, ◌≤◌, ◌++◌, refl, sym, subst, true,
  false, none, some, List, [], ◌∷◌, inl, inr, Result, ok, contains, contains-append, Bool-cases,
  Option-cases, arith, >>=-runs, length, if◌then◌else◌, ◌∙◌, ap,
}
use neo_init_ware.Objects.{Graph, Edge, has_flag, object_get}
use neo_init_ware.Objects.EdgeType
use neo_init_ware.Objects.Edges.{Owns}
use neo_init_ware.Objects.Resolve.{IsLive, AliasesLive}
use neo_init_ware.Tx.Model.{Transaction, job_for_name}
use neo_init_ware.Tx.Submit.{edges_of}
use neo_init_ware.Tx.Order.{
  Found, CreatesCycle, follow_order, wants_order, visit_order, visit_orders, drop_last, leave,
  object_creates_cycle, search_fuel,
}
use neo_init_ware.Tx.Order.Walks.{
  Leads, Waits, Reach, here, Reach-first, Follows, OnCycle, Follows-next, Reach-cases, IsClosed,
}

drop_last-append : (xs : List ℕ) (x : ℕ) → drop_last (xs ++ (x ∷ [])) ≡ xs
drop_last-append [] x = refl
drop_last-append (y ∷ []) x = refl
drop_last-append (y ∷ z ∷ xs) x = rw (drop_last-append (z ∷ xs) x)

leave-graph : (s : Found) → (leave s).graph ≡ s.graph
leave-graph s = ground arith

leave-cyclic : (s : Found) → (leave s).cyclic ≡ s.cyclic
leave-cyclic s = ground arith

leave-path : (s : Found) → s.cyclic ≡ false → (leave s).path ≡ drop_last s.path
leave-path s c = ground arith

-- How many objects are not on the path.
abbrev off_path : List ℕ → ℕ → ℕ
off_path path i = if contains i path then 0 else 1

pub unvisited : Graph → List ℕ → ℕ
unvisited g path = sum_below (length g.heap) (off_path path)

sum_below-le_self : (n : ℕ) (path : List ℕ) → sum_below n (off_path path) ≤ n
sum_below-le_self zero path = omega arith
sum_below-le_self (suc n) path = ground (arith, sum_below-le_self n path)

unvisited-le : (g : Graph) (path : List ℕ) → unvisited g path ≤ length g.heap
unfolding unvisited
unvisited-le g path = sum_below-le_self (length g.heap) path

pub unvisited-lt :
    (g : Graph) (p : ℕ) (path : List ℕ)
    → IsLive g p
    → contains p path ≡ false
    → unvisited g (path ++ (p ∷ [])) < unvisited g path
unfolding unvisited
unvisited-lt g p path (o, at) off =
    sum_below-lt (length g.heap) p (off_path (path ++ (p ∷ []))) (off_path path)
      (λ i. ground (arith, contains-append i path (p ∷ []))) (live-lt g.heap p o at)
      (ground (arith, contains-append p path (p ∷ [])))

module _ (g : Graph) (tx : Transaction) where
  -- No walk from `p` meets the path, and none meets a cycle.
  record IsClean (path : List ℕ) (p : ℕ) : Type 0 where
    pub avoids : (q : ℕ) → Reach g tx p q → contains q path ≡ false
    pub acyclic : (q : ℕ) → Reach g tx p q → ¬ OnCycle g tx q

  record ReachesCycle (p : ℕ) : Type 0 where
    pub at : ℕ
    pub walk : Reach g tx p at
    pub cycle : OnCycle g tx at

  -- Every object of the path leads to `p`.
  abbrev pub Leading : List ℕ → ℕ → Type 0
  Leading path p = (x : ℕ) → contains x path ≡ true → Follows g tx x p

  -- What a search from `p` finds.
  record Searched (path : List ℕ) (p : ℕ) (r : Result Found) : Type 0 where
    pub out : Found
    pub runs : r ≡ ok out
    pub same : out.graph ≡ g
    pub clean : out.cyclic ≡ false → (out.path ≡ path) × IsClean path p
    pub cycle : out.cyclic ≡ true → ReachesCycle p

  -- What the visits of edges of `p` find.
  record Visited (path : List ℕ) (p : ℕ) (es : List Edge) (r : Result Found) : Type 0 where
    pub out : Found
    pub runs : r ≡ ok out
    pub same : out.graph ≡ g
    pub clean :
        out.cyclic ≡ false
        → (out.path ≡ path) × ((e : Edge) (q : ℕ) → Owns e es → Leads g tx e q → IsClean path q)
    pub cycle : out.cyclic ≡ true → ReachesCycle p

  abbrev SearchesBelow : ℕ → CreatesCycle → Type 0
  SearchesBelow bound search =
      (p : ℕ) (path : List ℕ)
      → IsLive g p
      → Leading path p
      → unvisited g path < bound
      → Searched path p (search p path g)

  abbrev clear : List ℕ → Found
  clear path = record { cyclic = false; path = path; graph = g }

  Found-eq :
      (s : Found) (path : List ℕ) → s.cyclic ≡ false → s.path ≡ path → s.graph ≡ g → s ≡ clear path
  Found-eq s path c p e = cc

  ReachesCycle-first : (p c : ℕ) → Waits g tx p c → ReachesCycle c → ReachesCycle p
  ReachesCycle-first p c w r = record {
    at = r.at;
    walk = Reach-first g tx p c r.at w r.walk;
    cycle = r.cycle;
  }

  -- All that `p` waits for is clean off the path with `p`, so `p` is clean off the path.
  IsClean-first :
      (path : List ℕ) (p : ℕ)
      → contains p path ≡ false
      → ((q : ℕ) → Waits g tx p q → IsClean (path ++ (p ∷ [])) q)
      → IsClean path p
  IsClean-first path p off rest = record { avoids = avoids'; acyclic = acyclic' }
    where
      off_both :
          (q : ℕ) → contains q (path ++ (p ∷ [])) ≡ false → (contains q path ≡ false) × (p ≢ q)
      off_both q h = (
        ground (arith, contains-append q path (p ∷ [])),
        λ same. ground (arith, contains-append q path (p ∷ [])),
      )

      avoids' : (q : ℕ) → Reach g tx p q → contains q path ≡ false
      avoids' q r = elim (Reach-cases g tx p q r) [
        | inl same ↦ rw (← same) off
        | inr f ↦ (off_both q ((rest f.via f.step).avoids q f.walk)).0
      ]

      never_again : ¬ Follows g tx p p
      never_again f = (off_both p ((rest f.via f.step).avoids p f.walk)).1 refl

      acyclic' : (q : ℕ) → Reach g tx p q → ¬ OnCycle g tx q
      acyclic' q r = elim (Reach-cases g tx p q r) [
        | inl same ↦ rw (← same) never_again
        | inr f ↦ (rest f.via f.step).acyclic q f.walk
      ]

  Leads-unique : (e : Edge) (m q : ℕ) → Leads g tx e m → Leads g tx e q → m ≡ q
  Leads-unique e m q a b = let both : some m ≡ some q = sym a.resolves ∙ b.resolves in cc

  module _ (closed : IsClosed g tx) (names : AliasesLive g) (bound : ℕ) (search : CreatesCycle)
      (searches : SearchesBelow bound search) (p : ℕ) (live : IsLive g p) (path : List ℕ)
      (leading : Leading path p) (small : unvisited g (path ++ (p ∷ [])) < bound) where
    abbrev onward : List ℕ
    onward = path ++ (p ∷ [])

    onward-Leading : (q : ℕ) → Waits g tx p q → Leading onward q
    onward-Leading q w x h = elim (Bool-cases (contains x path)) [
      | inl old ↦ Follows-next g tx x p q (leading x old) w
      | inr new ↦
          let same : p ≡ x = ground (arith, contains-append x path (p ∷ [])) in
          rw (← same) (record { via = q; step = w; walk = here })
    ]

    -- A visit that follows the edge.
    visit_order-follows :
        (e : Edge) (q : ℕ)
        → Owns e (edges_of p g)
        → Leads g tx e q
        → Visited onward p (e ∷ []) (visit_order tx search e (clear onward))
    unfolding visit_order follow_order object_get
    visit_order-follows e q owns leads =
        let w : Waits g tx p q = record { edge = e; owns = owns; leads = leads } in
        let wants : wants_order tx search e (clear onward) ≡ true =
          ground (arith, leads.is_after, leads.has_job) in
        let got : object_get e.to g ≡ ok (q, g) = rw (leads.resolves, object_get) in
        let r = searches q onward (names e.to q leads.resolves) (onward-Leading q w) small in
        record {
          out = r.out;
          runs = rw (wants, visit_order) (>>=-runs (object_get e.to g) _ got r.runs);
          same = r.same;
          clean = λ c. (
            (r.clean c).0,
            λ x m x_owns x_leads. elim x_owns [
              | inl this ↦
                  let other : Leads g tx e m = subst (λ y. Leads g tx y m) this x_leads in
                  rw (Leads-unique e m q other leads) (r.clean c).1
              | inr nothing ↦ absurd nothing
            ],
          );
          cycle = λ c. ReachesCycle-first p q w (r.cycle c);
        }

    -- A visit that does not.
    visit_order-passes :
        (e : Edge)
        → wants_order tx search e (clear onward) ≡ false
        → ((q : ℕ) → ¬ Leads g tx e q)
        → Visited onward p (e ∷ []) (visit_order tx search e (clear onward))
    unfolding visit_order
    visit_order-passes e passes no_lead = record {
      out = clear onward;
      runs = rw (passes, visit_order);
      same = refl;
      clean = λ _. (
        refl,
        λ x q owns leads. elim owns [
          | inl this ↦ absurd (no_lead q (subst (λ y. Leads g tx y q) this leads))
          | inr nothing ↦ absurd nothing
        ],
      );
      cycle = λ c. cc;
    }

    visit_order-Visited :
        (e : Edge)
        → Owns e (edges_of p g)
        → Visited onward p (e ∷ []) (visit_order tx search e (clear onward))
    visit_order-Visited e owns = elim (Bool-cases (has_flag EdgeType.after e)) [
      | inr plain ↦ visit_order-passes e (ground arith) (λ q l. ground (arith, l.is_after))
      | inl after ↦ elim (Option-cases (job_for_name g e.to tx)) [
        | inl idle ↦ visit_order-passes e (ground arith) (λ q l. l.has_job idle)
        | inr (j, busy) ↦
            let has_job : job_for_name g e.to tx ≢ none = λ h. ground arith in
            let (q, resolves) = closed e.to has_job in
            visit_order-follows e q owns
              (record { is_after = after; has_job = has_job; resolves = resolves })
      ]
    ]

    -- Once a cycle is found, the other visits do nothing.
    visit_orders-found :
        (es : List Edge) (s : Found) → s.cyclic ≡ true → visit_orders tx search es s ≡ ok s
    unfolding visit_orders visit_order
    visit_orders-found [] s c = refl
    visit_orders-found (e ∷ es) s c =
        >>=-runs (visit_order tx search e s) _ (ground arith) (visit_orders-found es s c)

    visit_orders-Visited :
        (es : List Edge)
        → ((e : Edge) → Owns e es → Owns e (edges_of p g))
        → Visited onward p es (visit_orders tx search es (clear onward))
    unfolding visit_orders
    visit_orders-Visited [] owns = record {
      out = clear onward;
      runs = refl;
      same = refl;
      clean = λ _. (refl, λ e q o l. absurd o);
      cycle = λ c. cc;
    }
    visit_orders-Visited (e ∷ es) owns =
        let one = visit_order-Visited e (owns e (inl refl)) in
        elim (Bool-cases one.out.cyclic) [
          | inl cyclic ↦ record {
            out = one.out;
            runs =
                >>=-runs (visit_order tx search e (clear onward)) _ one.runs
                  (visit_orders-found es one.out cyclic);
            same = one.same;
            clean = λ c. absurd (cc);
            cycle = one.cycle;
          }
          | inr clear_yet ↦
              let (path_same, first) = one.clean clear_yet in
              let again = Found-eq one.out onward clear_yet path_same one.same in
              let rest = visit_orders-Visited es (λ x h. owns x (inr h)) in
              record {
                out = rest.out;
                runs =
                    >>=-runs (visit_order tx search e (clear onward)) _ (one.runs ∙ ap ok again)
                      rest.runs;
                same = rest.same;
                clean = λ c. (
                  (rest.clean c).0,
                  λ x q x_owns leads. elim x_owns [
                    | inl this ↦ first x q (inl this) leads
                    | inr later ↦ (rest.clean c).1 x q later leads
                  ],
                );
                cycle = rest.cycle;
              }
        ]

  object_creates_cycle-Searches :
      (closed : IsClosed g tx) (names : AliasesLive g) (fuel : ℕ)
      → SearchesBelow fuel (object_creates_cycle fuel tx)
  unfolding object_creates_cycle
  object_creates_cycle-Searches closed names zero p path live leading small = absurd (omega arith)
  object_creates_cycle-Searches closed names (suc fuel) p path live leading small =
      elim (Bool-cases (contains p path)) [
        | inl met ↦ record {
          out = record { cyclic = true; path = path; graph = g };
          runs = rw (met, object_creates_cycle);
          same = refl;
          clean = λ c. absurd (cc);
          cycle = λ c. record { at = p; walk = here; cycle = leading p met };
        }
        | inr off ↦
            let v =
              visit_orders-Visited closed names fuel (object_creates_cycle fuel tx)
                (object_creates_cycle-Searches closed names fuel) p live path leading
                (omega (arith, unvisited-lt g p path live off)) (edges_of p g) (λ e o. o) in
            record {
              out = leave v.out;
              runs = rw (off, object_creates_cycle) (>>=-runs _ _ v.runs refl);
              same = leave-graph v.out ∙ v.same;
              clean = λ c.
                  let c' = sym (leave-cyclic v.out) ∙ c in
                  let (onward, rest) = v.clean c' in
                  (
                    leave-path v.out c' ∙ (ap drop_last onward ∙ drop_last-append path p),
                    IsClean-first path p off (λ q w. rest w.edge q w.owns w.leads),
                  );
              cycle = λ c. v.cycle (sym (leave-cyclic v.out) ∙ c);
            }
      ]

-- For a live object, where every name leads to a live object and every name with a job to an object,
-- the search from an empty path returns within the stated fuel and changes no object. If it answers
-- no, no cycle of After edges between objects with jobs can be reached from the object, and the path
-- is empty again; if it answers yes, one can. Before edges play no part.
pub object_creates_cycle_decides :
    (g : Graph) (tx : Transaction) (p : ℕ)
    → AliasesLive g
    → IsClosed g tx
    → IsLive g p
    → (s : Found) × (object_creates_cycle (search_fuel g) tx p [] g ≡ ok s)
      × (s.graph ≡ g)
      × (s.cyclic ≡ false → (s.path ≡ []) × ((q : ℕ) → Reach g tx p q → ¬ OnCycle g tx q))
      × (s.cyclic ≡ true → (q : ℕ) × Reach g tx p q × OnCycle g tx q)
unfolding search_fuel
object_creates_cycle_decides g tx p names closed live =
    let r =
      object_creates_cycle-Searches g tx closed names (search_fuel g) p [] live (λ x h. absurd (cc))
        (omega (arith, unvisited-le g [])) in
    (
      r.out,
      r.runs,
      r.same,
      λ c. ((r.clean c).0, (r.clean c).1.acyclic),
      λ c. let x = r.cycle c in (x.at, x.walk, x.cycle),
    )
