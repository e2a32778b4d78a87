-- ===== src/Routing/Chosen.antt =====
-- The line by which a routing function says yes, for the tables of services/gateway/src/routes/owner.ts and
-- services/core-api/src.
use push_be.Prelude.{
  String, ◌≡◌, refl, Bool, true, ◌&&◌, List, [], ◌∷◌, some, arith, elem, all_of, Bool-cases, inl,
  inr, and-eq-true, ◌⊎◌,
}
use push_be.Routing.{Seg, matches, Rule, allow, gate, open_to, except, decide}
use push_be.Routing.Symbolic.{all_of-elem}

-- A test of the method and pattern of every line; a line that is open to all methods is tested at "".
unfoldable pub all_rules : (String → List Seg → Bool) → List Rule → Bool
all_rules f [] = true
all_rules f (allow ms p ∷ rules) = all_of (λ m. f m p) ms && all_rules f rules
all_rules f (gate ms p ∷ rules) = all_of (λ m. f m p) ms && all_rules f rules
all_rules f (open_to p ∷ rules) = f "" p && all_rules f rules
all_rules f (except ms p q ∷ rules) = all_of (λ m. f m p) ms && all_rules f rules

-- The line by which a routing function said yes.
pub record Chosen (f : String → List Seg → Bool) (method : String) (parts : List String)
    : Type 0 where
  pub at : String
  pub pattern : List Seg
  pub tested : f at pattern ≡ true
  pub matched : matches pattern parts ≡ true
  pub same : (at ≡ method) ⊎ (at ≡ "")

module _ (f : String → List Seg → Bool) (method : String) (parts : List String) where
  chosen :
      (ms : List String) (p : List Seg)
      → all_of (λ m. f m p) ms ≡ true
      → elem method ms ≡ true
      → matches p parts ≡ true
      → Chosen f method parts
  chosen ms p h e m = record {
    at = method;
    pattern = p;
    tested = all_of-elem (λ k. f k p) method ms e h;
    matched = m;
    same = inl refl;
  }

  pub decide-all_rules :
      (rules : List Rule)
      → all_rules f rules ≡ true
      → decide method parts rules ≡ some true
      → Chosen f method parts
  unfolding decide all_rules
  decide-all_rules [] h k = cc
  decide-all_rules (allow ms p ∷ rules) h k =
      elim (Bool-cases (elem method ms && matches p parts)) [
        | inl e ↦
            chosen ms p (and-eq-true _ _ h).0 (and-eq-true _ _ e).0
              (and-eq-true (elem method ms) _ e).1
        | inr e ↦ decide-all_rules rules (and-eq-true (all_of (λ m. f m p) ms) _ h).1 (rw e at k)
      ]
  decide-all_rules (gate ms p ∷ rules) h k = elim (Bool-cases (matches p parts)) [
    | inl e ↦ chosen ms p (and-eq-true _ _ h).0 (ground arith) e
    | inr e ↦ decide-all_rules rules (and-eq-true (all_of (λ m. f m p) ms) _ h).1 (rw e at k)
  ]
  decide-all_rules (open_to p ∷ rules) h k = elim (Bool-cases (matches p parts)) [
    | inl e ↦ record {
      at = "";
      pattern = p;
      tested = (and-eq-true _ _ h).0;
      matched = e;
      same = inr refl;
    }
    | inr e ↦ decide-all_rules rules (and-eq-true (f "" p) _ h).1 (rw e at k)
  ]
  decide-all_rules (except ms p q ∷ rules) h k = elim (Bool-cases (matches p parts)) [
    | inl e ↦ chosen ms p (and-eq-true _ _ h).0 (ground arith) e
    | inr e ↦ decide-all_rules rules (and-eq-true (all_of (λ m. f m p) ms) _ h).1 (rw e at k)
  ]
