-- ===== src/Objects/LoadQueue.antt =====
-- `Scheduler::dispatch_load_queue`. The loader, `JS::loadObject`, runs JavaScript, and is a parameter.
use neo_init_ware.Common.{
  List-cases, inl, inr, ℕ, zero, suc, ◌+◌, ◌≡◌, ◌≤◌, ◌∙◌, refl, ap, String, List, [], ◌∷◌, ◌++◌,
  Result, ok, err, undefined, out_of_fuel, ◌>>=◌, >>=-runs, length, length-append, arith,
}
use neo_init_ware.Objects.Registry.{Graph}

-- `m_loadqueue.pop()`
unfoldable pub pop : Graph → Result Graph
pop g = elim g.m_loadqueue [ [] ↦ err undefined | id ∷ rest ↦ ok (record g { m_loadqueue = rest }) ]

abbrev pub Load : Type 0
Load = String → Graph → Result Graph

-- The body of the loop of `dispatch_load_queue`, and what follows. The name at the front is loaded
-- while it is still in the queue.
unfoldable pub load_front :
    Load → (later : Graph → Result Graph) → List String → Graph → Result Graph
unfolding pop
load_front load later [] g = ok g
load_front load later (id ∷ rest) g = do g1 ← load id g; g2 ← pop g1; later g2

unfoldable pub dispatch_load_queue : Load → ℕ → Graph → Result Graph
unfolding load_front
dispatch_load_queue load zero g = err out_of_fuel
dispatch_load_queue load (suc fuel) g =
    load_front load (dispatch_load_queue load fuel) g.m_loadqueue g

-- The queue that a load leaves, without the name at its front.
abbrev pub popped : Graph → List String → Graph
popped g queue = record g { m_loadqueue = queue }

-- The loader loads the name at the front of the queue. It adds names at the end of the queue, and
-- every name that it adds lowers `unknown`, the count of the names in sight that have never been
-- queued. It leaves registries for which `Good` holds.
pub record Loads (load : Load) (Good : Graph → Type 0) (unknown : Graph → ℕ) (id : String)
    (rest : List String) (g : Graph) : Type 0 where
  pub out : Graph
  pub added : List String
  pub runs : load id g ≡ ok out
  pub queued : out.m_loadqueue ≡ g.m_loadqueue ++ added
  pub fewer : unknown (popped out (rest ++ added)) + length added ≤ unknown g
  pub good : Good (popped out (rest ++ added))

-- The names are loaded one after the other, each while it stands at the front of the queue, from
-- which it is taken then, until the queue is empty.
pub data Dispatched (load : Load) : Graph → List String → Graph → Type 0 where
  finished : {g : Graph} → g.m_loadqueue ≡ [] → Dispatched load g [] g
  loaded :
      {g out h : Graph} {id : String} {rest ids : List String}
      → g.m_loadqueue ≡ id ∷ rest
      → load id g ≡ ok out
      → (left : List String) → out.m_loadqueue ≡ id ∷ left
      → Dispatched load (popped out left) ids h
      → Dispatched load g (id ∷ ids) h

pop-cons :
    (g : Graph) (id : String) (rest : List String)
    → g.m_loadqueue ≡ id ∷ rest
    → pop g ≡ ok (record g { m_loadqueue = rest })
unfolding pop
pop-cons g id rest queue = rw queue refl

module _ (load : Load) (Good : Graph → Type 0) (unknown : Graph → ℕ)
    (loads : (id : String) (rest : List String) (g : Graph)
      → Good g
      → g.m_loadqueue ≡ id ∷ rest
      → Loads load Good unknown id rest g) where
  Empties : ℕ → Graph → Type 0
  Empties fuel g =
      (h : Graph) × (ids : List String) × (dispatch_load_queue load fuel g ≡ ok h)
      × Dispatched load g ids h
      × (h.m_loadqueue ≡ [])

  no_names : (fuel : ℕ) (g : Graph) → g.m_loadqueue ≡ [] → Empties (suc fuel) g
  unfolding Empties dispatch_load_queue
  no_names fuel g queue = (
    g,
    [],
    ap (λ q. load_front load (dispatch_load_queue load fuel) q g) queue,
    finished queue,
    queue,
  )

  dispatch_load_queue-Empties :
      (fuel : ℕ) (g : Graph)
      → Good g
      → unknown g + length g.m_loadqueue ≤ fuel
      → Empties (suc fuel) g
  unfolding Empties dispatch_load_queue
  dispatch_load_queue-Empties zero g good few = elim (List-cases g.m_loadqueue) [
    | inl queue ↦ no_names zero g queue
    | inr (id, rest, queue) ↦
        let more : length g.m_loadqueue ≡ suc (length rest) = rw queue refl in absurd (omega arith)
  ]
  dispatch_load_queue-Empties (suc fuel) g good few = elim (List-cases g.m_loadqueue) [
    | inl queue ↦ no_names (suc fuel) g queue
    | inr (id, rest, queue) ↦
        let r = loads id rest g good queue in
        let later = popped r.out (rest ++ r.added) in
        let front : r.out.m_loadqueue ≡ id ∷ (rest ++ r.added) =
          r.queued ∙ ap (λ q. q ++ r.added) queue in
        let removed : pop r.out ≡ ok later = pop-cons r.out id (rest ++ r.added) front in
        let was : length g.m_loadqueue ≡ suc (length rest) = rw queue refl in
        let (h, ids, runs, trace, empty) =
          dispatch_load_queue-Empties fuel later r.good
            (omega (arith, r.fewer, length-append rest r.added)) in
        (
          h,
          id ∷ ids,
          ap (λ q. load_front load (dispatch_load_queue load (suc fuel)) q g) queue
              ∙ >>=-runs (load id g) _ r.runs (>>=-runs (pop r.out) _ removed runs),
          loaded queue r.runs (rest ++ r.added) front trace,
          empty,
        )
  ]

-- Where every load of the name at the front of a queue, from the registry that is given and those that
-- loads lead to, adds names at the end of the queue only, and no more of them than there are names
-- that have not been queued yet, the dispatch returns within the stated fuel. The loader has then been
-- called for the queue's names one after the other, those that were added included, each name was
-- taken off the queue after its load, and none is left.
pub dispatch_load_queue_empties :
    (load : Load) (Good : Graph → Type 0) (unknown : Graph → ℕ) (g : Graph)
    → ((id : String) (rest : List String) (f : Graph)
        → Good f
        → f.m_loadqueue ≡ id ∷ rest
        → Loads load Good unknown id rest f)
    → Good g
    → (h : Graph) × (ids : List String) × (dispatch_load_queue load
          (suc (unknown g + length g.m_loadqueue))
          g
        ≡ ok h)
      × Dispatched load g ids h
      × (h.m_loadqueue ≡ [])
unfolding Empties
dispatch_load_queue_empties load Good unknown g loads good =
    dispatch_load_queue-Empties load Good unknown loads (unknown g + length g.m_loadqueue) g good
      (omega arith)
