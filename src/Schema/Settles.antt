-- ===== src/Schema/Settles.antt =====
-- What a check does that ends: it gives the references back as they were, but for the count of the
-- expansions, and reports errors below its path.
pub mod Scalars
pub mod Sizes
pub mod Combined
pub mod Nodes
pub mod Refs
pub mod Ends
pub mod Returns
use Prim.Native.String.{◌++◌ as append}
use text.Mathlib.TextLemmas.{append-nil, append_assoc}
use crewai_go.Base.{
  ℕ, zero, suc, ◌+◌, ◌≤◌, if◌then◌else◌, Bool, true, false, Option, none, some, List, [], ◌∷◌, ◌++◌,
  String, ◌≡◌, refl, sym, ap, ◌∙◌, subst, arith,
}
use crewai_go.Schema.Json.{
  Json, Items, no_items, item, Members, no_members, member, size, size_items, size_members,
}
use crewai_go.Schema.Refs.{SchemaValidation, max_ref_expansions}
use crewai_go.Schema.Checks.{
  ValidationError, Message, Check, pass, report, report_if, add_errors, no_errors, ◌▷◌, trial,
  each_item, each_member, with_float,
}

-- A path that begins with another.
unfoldable pub IsBelow : {F : Type 0} → String → ValidationError F → Type 0
IsBelow p e = (w : String) × (e.path ≡ append p w)

abbrev pub AllBelow : {F : Type 0} → String → List (ValidationError F) → Type 0
AllBelow p [] = Unit {0}
AllBelow p (e ∷ es) = IsBelow p e × AllBelow p es

-- What a check makes of a state: the same but for the expansions, which are at most 256, and errors
-- below the path.
abbrev pub Settled :
    {F : Type 0}
    → String
    → SchemaValidation
    → Option (SchemaValidation × List (ValidationError F))
    → Type 0
Settled {F} p s outcome =
    (n : ℕ) × (es : List (ValidationError F)) × (outcome ≡ some (record s { expansions = n }, es))
    × (s.expansions ≤ n)
    × (n ≤ max_ref_expansions)
    × AllBelow p es

-- On any state with `d` references open and at most 256 expansions.
pub record IsSettled {F : Type 0} (d : ℕ) (p : String) (c : Check F) : Type 0 where
  pub settles :
      (s : SchemaValidation)
      → s.ref_depth ≡ d
      → s.expansions ≤ max_ref_expansions
      → Settled p s (c s)

module _ {F : Type 0} where
  pub AllBelow-append :
      (p : String) (es es' : List (ValidationError F))
      → AllBelow p es
      → AllBelow p es'
      → AllBelow p (es ++ es')
  AllBelow-append p [] es' a b = b
  AllBelow-append p (e ∷ es) es' a b = (a.0, AllBelow-append p es es' a.1 b)

  AllBelow-prefix :
      (p w : String) (es : List (ValidationError F)) → AllBelow (append p w) es → AllBelow p es
  unfolding IsBelow
  AllBelow-prefix p w [] a = tt
  AllBelow-prefix p w (e ∷ es) a =
      let (v, at) = a.0 in ((append w v, at ∙ append_assoc p w v), AllBelow-prefix p w es a.1)

  pub IsSettled-prefix :
      {d : ℕ} (p w : String) {c : Check F} → IsSettled d (append p w) c → IsSettled d p c
  IsSettled-prefix p w r = record {
    settles = λ s depth few.
        let (n, es, returns, grows, bounded, below) = r.settles s depth few in
        (n, es, returns, grows, bounded, AllBelow-prefix p w es below);
  }

  pub ▷-returns :
      (a b : Check F) {s s' s'' : SchemaValidation} {es es' : List (ValidationError F)}
      → a s ≡ some (s', es)
      → b s' ≡ some (s'', es')
      → (a ▷ b) s ≡ some (s'', es ++ es')
  unfolding ◌▷◌ add_errors
  ▷-returns a b {es} first second = rw (first, ◌▷◌) (ap (add_errors es) second)

  pub trial-returns :
      (c : Check F) (next : Bool → Check F) {s s' s'' : SchemaValidation}
      {es es' : List (ValidationError F)}
      → c s ≡ some (s', es)
      → next (no_errors es) s' ≡ some (s'', es')
      → trial c next s ≡ some (s'', es')
  unfolding trial
  trial-returns c next first second = rw (first, trial) second

module _ {F : Type 0} {d : ℕ} {p : String} where
  pub pass-IsSettled : IsSettled {F = F} d p pass
  unfolding pass
  pass-IsSettled = record {
    settles = λ s depth few. (s.expansions, [], refl, omega arith, few, tt);
  }

  pub report-IsSettled : (w : String) (m : Message F) → IsSettled d p (report (append p w) m)
  unfolding report IsBelow
  report-IsSettled w m = record {
    settles = λ s depth few. (
      s.expansions,
      record { path = append p w; message = m } ∷ [],
      refl,
      omega arith,
      few,
      ((w, refl), tt),
    );
  }

  pub report-IsSettled_here : (m : Message F) → IsSettled d p (report p m)
  report-IsSettled_here m =
      subst (λ q. IsSettled d p (report q m)) (append-nil p) (report-IsSettled "" m)

  pub report_if-IsSettled :
      (b : Bool) (w : String) (m : Message F) → IsSettled d p (report_if b (append p w) m)
  unfolding report_if
  report_if-IsSettled true w m = report-IsSettled w m
  report_if-IsSettled false w m = pass-IsSettled

  pub report_if-IsSettled_here : (b : Bool) (m : Message F) → IsSettled d p (report_if b p m)
  unfolding report_if
  report_if-IsSettled_here true m = report-IsSettled_here m
  report_if-IsSettled_here false m = pass-IsSettled

  pub ▷-IsSettled : (a b : Check F) → IsSettled d p a → IsSettled d p b → IsSettled d p (a ▷ b)
  unfolding ◌▷◌ add_errors
  ▷-IsSettled a b ra rb = record {
    settles = λ s depth few.
        let (n, es, first, grows, bounded, below) = ra.settles s depth few in
        let (n', es', second, grows', bounded', below') =
          rb.settles (record s { expansions = n }) depth bounded in
        (
          n',
          es ++ es',
          ▷-returns a b first second,
          omega (arith, grows, grows'),
          bounded',
          AllBelow-append p es es' below below',
        );
  }

  pub trial-IsSettled :
      (c : Check F) (next : Bool → Check F) (q : String)
      → IsSettled d q c
      → ((b : Bool) → IsSettled d p (next b))
      → IsSettled d p (trial c next)
  unfolding trial
  trial-IsSettled c next q rc rnext = record {
    settles = λ s depth few.
        let (n, es, first, grows, bounded, below) = rc.settles s depth few in
        let (n', es', second, grows', bounded', below') =
          (rnext (no_errors es)).settles (record s { expansions = n }) depth bounded in
        (
          n',
          es',
          trial-returns c next first second,
          omega (arith, grows, grows'),
          bounded',
          below',
        );
  }

  pub each_item-IsSettled :
      (f : ℕ → Json F → Check F) (k i : ℕ) (xs : Items F)
      → size_items xs ≤ k
      → ((i : ℕ) (x : Json F) → size x ≤ k → IsSettled d p (f i x))
      → IsSettled d p (each_item f i xs)
  unfolding each_item size
  each_item-IsSettled f k i no_items small each = pass-IsSettled
  each_item-IsSettled f k i (item x xs) small each =
      ▷-IsSettled (f i x) (each_item f (suc i) xs) (each i x (omega (arith, small)))
        (each_item-IsSettled f k (suc i) xs (omega (arith, small)) each)

  pub each_member-IsSettled :
      (f : String → Json F → Check F) (k : ℕ) (m : Members F)
      → size_members m ≤ k
      → ((key : String) (v : Json F) → size v ≤ k → IsSettled d p (f key v))
      → IsSettled d p (each_member f m)
  unfolding each_member size
  each_member-IsSettled f k no_members small each = pass-IsSettled
  each_member-IsSettled f k (member key v m) small each =
      ▷-IsSettled (f key v) (each_member f m) (each key v (omega (arith, small)))
        (each_member-IsSettled f k m (omega (arith, small)) each)

  pub with_float-IsSettled :
      (bound : Option F) (check : F → Check F)
      → ((v : F) → IsSettled d p (check v))
      → IsSettled d p (with_float bound check)
  unfolding with_float
  with_float-IsSettled none check each = pass-IsSettled
  with_float-IsSettled (some v) check each = each v
