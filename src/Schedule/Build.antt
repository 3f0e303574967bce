-- ===== src/Schedule/Build.antt =====
-- The two slices that the second loop of `planWaves` fills.
use crewai_go.Base.{
  ℕ, zero, suc, ◌+◌, ◌<◌, ◌==◌, ◌≡◌, refl, ◌↔◌, inl, inr, if◌then◌else◌, Bool, false, ==_refl,
  get_elem?-lt, get_elem?-map, get_elem?_of_map, Option, none, some, List, [], subst, ◌∷◌, length,
  get_elem?, arith, Option-cases, Bool-cases,
}
use crewai_go.Base.Count.{count}
use crewai_go.Base.Table.{Table, lookup, nat_key}
use crewai_go.Base.Result.{ok, chain_returns}
use crewai_go.Kahn.{Graph, no_edges, add_edge}
use crewai_go.Kahn.Edges.{Edges, between, IsBuilt, InRange, no_edges-IsBuilt, add_edge-IsBuilt}
use crewai_go.Schedule.{Task, add_deps, build_graph}
use crewai_go.Base.Positions.{IsIndex}
use crewai_go.Schedule.Index.{pointers}

-- Task j of the list names task i in its Context.
abbrev pub DependsOn : List Task → ℕ → ℕ → Type 0
DependsOn tasks j i =
    (t : Task) × (u : Task) × (get_elem? tasks j ≡ some t)
    × (get_elem? tasks i ≡ some u)
    × (0 < count u.pointer t.context)

abbrev points_to : ℕ → Option ℕ → Bool
points_to a none = false
points_to a (some b) = b == a

-- How many entries of a Context stand for position `a`.
abbrev named : Table ℕ ℕ → ℕ → List ℕ → ℕ
named index a [] = 0
named index a (d ∷ ds) = (if points_to a (lookup d index) then 1 else 0) + named index a ds

abbrev context_at : List Task → ℕ → List ℕ
context_at [] b = []
context_at (t ∷ ts) zero = t.context
context_at (t ∷ ts) (suc b) = context_at ts b

-- The edges of a graph that `build_graph` returns, and the guard against self-dependencies.
pub record HasEdges (index : Table ℕ ℕ) (i : ℕ) (es : Edges) (ds : List ℕ) (g : Graph)
    : Type 0 where
  pub edges : Edges
  pub built : IsBuilt edges g
  pub exact :
      (a b : ℕ) → between edges a b ≡ between es a b + (if b == i then named index a ds else 0)
  pub no_self : named index i ds ≡ 0

add_deps-HasEdges :
    (index : Table ℕ ℕ) (i : ℕ) (es : Edges) (g : Graph) (ds : List ℕ) {r : Graph}
    → IsBuilt es g
    → add_deps index i g ds ≡ ok r
    → HasEdges index i es ds r
unfolding add_deps
add_deps-HasEdges index i es g [] b h = record {
  edges = es;
  built = subst (IsBuilt es) (cc) b;
  exact = λ x y. ground arith;
  no_self = refl;
}
add_deps-HasEdges index i es g (d ∷ ds) b h = elim (Option-cases (lookup d index)) [
  | inl outside ↦
      let ih = add_deps-HasEdges index i es g ds b (rw (outside, add_deps) at h) in
      record {
        edges = ih.edges;
        built = ih.built;
        exact = λ x y. ground (arith, ih.exact x y);
        no_self = ground (arith, ih.no_self);
      }
  | inr (j, inside) ↦ elim (Bool-cases (j == i)) [
    | inl self ↦ absurd (cc (rw (inside, self, add_deps) at h))
    | inr other ↦
        let ih =
          add_deps-HasEdges index i ((j, i) ∷ es) (add_edge g j i) ds (add_edge-IsBuilt es g j i b)
            (rw (inside, other, add_deps) at h) in
        record {
          edges = ih.edges;
          built = ih.built;
          exact = λ x y. ground (arith, ih.exact x y);
          no_self = ground (arith, ih.no_self);
        }
  ]
]

-- The same for the tasks from position i on.
pub record HasAllEdges (index : Table ℕ ℕ) (i : ℕ) (es : Edges) (ts : List Task) (g : Graph)
    : Type 0 where
  pub edges : Edges
  pub built : IsBuilt edges g
  pub before : (a b : ℕ) → b < i → between edges a b ≡ between es a b
  pub exact :
      (a k : ℕ) → between edges a (i + k) ≡ between es a (i + k) + named index a (context_at ts k)
  pub no_self : (k : ℕ) → named index (i + k) (context_at ts k) ≡ 0

build_graph-HasAllEdges :
    (index : Table ℕ ℕ) (i : ℕ) (es : Edges) (g : Graph) (ts : List Task) {r : Graph}
    → IsBuilt es g
    → build_graph index i g ts ≡ ok r
    → HasAllEdges index i es ts r
unfolding build_graph
build_graph-HasAllEdges index i es g [] b h = record {
  edges = es;
  built = subst (IsBuilt es) (cc) b;
  before = λ a c p. refl;
  exact = λ a k. omega arith;
  no_self = λ k. refl;
}
build_graph-HasAllEdges index i es g (t ∷ ts) b h =
    let (g', rest, e) =
      chain_returns (add_deps index i g t.context) (λ k. build_graph index (suc i) k ts) h in
    let now = add_deps-HasEdges index i es g t.context b e in
    let later = build_graph-HasAllEdges index (suc i) now.edges g' ts now.built rest in
    record {
      edges = later.edges;
      built = later.built;
      before = λ a c p. ground (arith, later.before a c, now.exact a c);
      exact = λ a k. exact_at now later a k;
      no_self = λ k. no_self_at now later k;
    }
  where
    exact_at :
        {g' r : Graph} (now : HasEdges index i es t.context g')
        (later : HasAllEdges index (suc i) now.edges ts r) (a k : ℕ)
        → between later.edges a (i + k)
          ≡ between es a (i + k) + named index a (context_at (t ∷ ts) k)
    exact_at now later a zero = ground (arith, later.before a i, now.exact a i)
    exact_at now later a (suc k) = ground (arith, later.exact a k, now.exact a (i + suc k))

    no_self_at :
        {g' r : Graph} (now : HasEdges index i es t.context g')
        (later : HasAllEdges index (suc i) now.edges ts r) (k : ℕ)
        → named index (i + k) (context_at (t ∷ ts) k) ≡ 0
    no_self_at now later zero = ground (arith, now.no_self)
    no_self_at now later (suc k) = ground (arith, later.no_self k)

-- Without self-dependencies the second loop returns.
add_deps-total :
    (index : Table ℕ ℕ) (i : ℕ) (g : Graph) (ds : List ℕ)
    → named index i ds ≡ 0
    → (r : Graph) × (add_deps index i g ds ≡ ok r)
unfolding add_deps
add_deps-total index i g [] h = (g, refl)
add_deps-total index i g (d ∷ ds) h = elim (Option-cases (lookup d index)) [
  | inl outside ↦
      let (r, e) = add_deps-total index i g ds (ground arith) in (r, rw (outside, add_deps) e)
  | inr (j, inside) ↦
      let (r, e) = add_deps-total index i (add_edge g j i) ds (ground arith) in
      let other : (j == i) ≡ false = ground arith in (r, rw (inside, add_deps, other) e)
]

build_graph-total :
    (index : Table ℕ ℕ) (i : ℕ) (g : Graph) (ts : List Task)
    → ((k : ℕ) → named index (i + k) (context_at ts k) ≡ 0)
    → (r : Graph) × (build_graph index i g ts ≡ ok r)
unfolding build_graph
build_graph-total index i g [] h = (g, refl)
build_graph-total index i g (t ∷ ts) h =
    let (g', e) = add_deps-total index i g t.context (ground (arith, h 0)) in
    let (r, e') = build_graph-total index (suc i) g' ts (λ k. ground (arith, h (suc k))) in
    (r, rw (e, build_graph) e')

named-pos :
    (index : Table ℕ ℕ) (a : ℕ) (ds : List ℕ)
    → 0 < named index a ds
    → (d : ℕ) × (0 < count d ds) × (lookup d index ≡ some a)
named-pos index a [] h = absurd (omega arith)
named-pos index a (d ∷ ds) h = elim (Bool-cases (points_to a (lookup d index))) [
  | inl here ↦ (d, ground arith, ground arith)
  | inr later ↦ let (c, p, q) = named-pos index a ds (ground arith) in (c, omega (arith, p), q)
]

pos-named :
    (index : Table ℕ ℕ) (a d : ℕ) (ds : List ℕ)
    → lookup d index ≡ some a
    → 0 < count d ds
    → 0 < named index a ds
pos-named index a d [] e h = absurd (omega arith)
pos-named index a d (c ∷ ds) e h = elim (Bool-cases (c == d)) [
  | inl same ↦ let p : c ≡ d = ground arith in rw (p, e, ==_refl a) (omega arith)
  | inr other ↦ omega (arith, pos-named index a d ds e (ground arith))
]

context_at-eq :
    (tasks : List Task) (j : ℕ) {t : Task}
    → get_elem? tasks j ≡ some t
    → context_at tasks j ≡ t.context
context_at-eq [] j h = cc
context_at-eq (t ∷ ts) zero h = ground arith
context_at-eq (t ∷ ts) (suc j) h = context_at-eq ts j h

context_at-task :
    (tasks : List Task) (j d : ℕ)
    → 0 < count d (context_at tasks j)
    → (t : Task) × (get_elem? tasks j ≡ some t) × (0 < count d t.context)
context_at-task [] j d h = absurd (omega arith)
context_at-task (t ∷ ts) zero d h = (t, refl, h)
context_at-task (t ∷ ts) (suc j) d h = context_at-task ts j d h

module _ (tasks : List Task) {index : Table ℕ ℕ} (indexed : IsIndex (pointers tasks) index) where
  pub named-DependsOn : (i j : ℕ) → 0 < named index i (context_at tasks j) → DependsOn tasks j i
  named-DependsOn i j h =
      let (d, c, e) = named-pos index i (context_at tasks j) h in
      let (t, p, q) = context_at-task tasks j d c in
      let (u, p', q') = get_elem?_of_map (λ v. v.pointer) tasks i (indexed.sound d i e) in
      (t, u, p, p', rw q' q)

  pub DependsOn-named : (i j : ℕ) → DependsOn tasks j i → 0 < named index i (context_at tasks j)
  DependsOn-named i j (t, u, p, q, c) = rw (context_at-eq tasks j p) (
      pos-named index i u.pointer t.context
        (indexed.found i u.pointer (get_elem?-map (λ v. v.pointer) tasks i q)) c)

-- The graph of a task list: an edge for each dependency of one of its tasks on another.
pub record IsGraph (tasks : List Task) (es : Edges) (g : Graph) : Type 0 where
  pub built : IsBuilt es g
  pub edge : (i j : ℕ) → (0 < between es i j) ↔ DependsOn tasks j i
  pub in_range : InRange (length tasks) es
  pub no_self : (i : ℕ) → ¬ DependsOn tasks i i

pub build_graph-IsGraph :
    (tasks : List Task) {index : Table ℕ ℕ} (indexed : IsIndex (pointers tasks) index) {g : Graph}
    → build_graph index 0 no_edges tasks ≡ ok g
    → (es : Edges) × IsGraph tasks es g
build_graph-IsGraph tasks {index} indexed h =
    let all = build_graph-HasAllEdges index 0 [] no_edges tasks no_edges-IsBuilt h in
    let edge = λ (i j : ℕ). edge_at all i j in
    (
      all.edges,
      record {
        built = all.built;
        edge = edge;
        in_range = λ i j p.
            let (t, u, e, f, _) = (edge i j).0 p in
            (get_elem?-lt tasks i f, get_elem?-lt tasks j e);
        no_self = λ i d. ground (arith, all.no_self i, DependsOn-named tasks indexed i i d);
      },
    )
  where
    edge_at :
        {g : Graph} (all : HasAllEdges index 0 [] tasks g) (i j : ℕ)
        → (0 < between all.edges i j) ↔ DependsOn tasks j i
    edge_at all i j = (
      λ p. named-DependsOn tasks indexed i j (ground (arith, all.exact i j)),
      λ d. ground (arith, all.exact i j, DependsOn-named tasks indexed i j d),
    )

pub build_graph-returns :
    (tasks : List Task) {index : Table ℕ ℕ} (indexed : IsIndex (pointers tasks) index)
    → ((i : ℕ) → ¬ DependsOn tasks i i)
    → (g : Graph) × (build_graph index 0 no_edges tasks ≡ ok g)
build_graph-returns tasks {index} indexed h = build_graph-total index 0 no_edges tasks clean
  where
    clean : (k : ℕ) → named index (0 + k) (context_at tasks k) ≡ 0
    clean k = elim (Bool-cases (named index k (context_at tasks k) == 0)) [
      | inl e ↦ ground arith
      | inr e ↦ absurd (h k (named-DependsOn tasks indexed k k (ground arith)))
    ]
