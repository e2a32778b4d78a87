-- ===== src/Routing/Pruned.antt =====
-- The lines of a routing function that matter to the paths of one pattern, where some patterns are known
-- not to match. The functions that it speaks of are in services/gateway/src/routes/owner.ts.
use push_be.Prelude.{
  String, ◌≡◌, refl, Bool, true, false, ◌||◌, List, [], ◌∷◌, arith, if◌then◌else◌, Bool-cases,
  and-eq-true, or-eq-true, inl, inr,
}
use push_be.Routing.{
  Seg, lit, any, one_of, rest, fits, matches, Rule, allow, gate, open_to, except, decide,
}
use push_be.Routing.Symbolic.{within, within_sound}

-- One of the two parts; a text that fits both fits it.
abbrev meet_seg : Seg → Seg → Seg
meet_seg (lit s) q = lit s
meet_seg p (lit t) = lit t
meet_seg (one_of ss) q = one_of ss
meet_seg p q = q

-- A pattern that every path matches which matches both.
unfoldable pub meet : List Seg → List Seg → List Seg
meet [] q = []
meet (rest ∷ _) q = q
meet (_ ∷ _) [] = []
meet (p ∷ ps) (rest ∷ _) = p ∷ ps
meet (p ∷ ps) (q ∷ qs) = meet_seg p q ∷ meet ps qs

meet_seg_sound :
    (p q : Seg) (s : String) → fits p s ≡ true → fits q s ≡ true → fits (meet_seg p q) s ≡ true
meet_seg_sound (lit _) q s h k = h
meet_seg_sound any (lit _) s h k = k
meet_seg_sound (one_of _) (lit _) s h k = k
meet_seg_sound rest (lit _) s h k = k
meet_seg_sound (one_of _) any s h k = h
meet_seg_sound (one_of _) (one_of _) s h k = h
meet_seg_sound (one_of _) rest s h k = h
meet_seg_sound any any s h k = k
meet_seg_sound any (one_of _) s h k = k
meet_seg_sound any rest s h k = k
meet_seg_sound rest any s h k = k
meet_seg_sound rest (one_of _) s h k = k
meet_seg_sound rest rest s h k = k

meet_sound :
    (p q : List Seg) (parts : List String)
    → matches p parts ≡ true
    → matches q parts ≡ true
    → matches (meet p q) parts ≡ true
unfolding meet matches
meet_sound [] q parts h k = h
meet_sound (rest ∷ _) q parts h k = k
meet_sound (lit _ ∷ _) [] parts h k = k
meet_sound (any ∷ _) [] parts h k = k
meet_sound (one_of _ ∷ _) [] parts h k = k
meet_sound (lit _ ∷ _) (rest ∷ _) parts h k = h
meet_sound (any ∷ _) (rest ∷ _) parts h k = h
meet_sound (one_of _ ∷ _) (rest ∷ _) parts h k = h
meet_sound (p ∷ ps) (q ∷ qs) [] h k = cc
meet_sound (p ∷ ps) (q ∷ qs) (s ∷ parts) h k =
    let (a, b) = and-eq-true (fits p s) _ h in
    let (c, d) = and-eq-true (fits q s) _ k in
    rw (meet_seg_sound p q s a c, meet_sound ps qs parts b d) refl

unfoldable pub matches_any : List (List Seg) → List String → Bool
matches_any [] parts = false
matches_any (q ∷ qs) parts = matches q parts || matches_any qs parts

-- The paths that match both patterns are among those of the excluded patterns.
unfoldable pub excluded : List (List Seg) → List Seg → Bool
excluded [] p = false
excluded (q ∷ qs) p = within p q || excluded qs p

excluded_sound :
    (qs : List (List Seg)) (p : List Seg) (parts : List String)
    → excluded qs p ≡ true
    → matches p parts ≡ true
    → matches_any qs parts ≡ true
unfolding excluded matches_any
excluded_sound [] p parts h m = cc
excluded_sound (q ∷ qs) p parts h m = elim (or-eq-true (within p q) _ h) [
  | inl e ↦ rw (within_sound p q parts e m) refl
  | inr e ↦ rw (excluded_sound qs p parts e m) (ground arith)
]

-- The lines that a path of `p` outside the excluded patterns can take.
unfoldable pub prune : List (List Seg) → List Seg → List Rule → List Rule
unfolding excluded meet within
prune qs p [] = []
prune qs p (allow ms q ∷ rules) =
    let others = prune qs p rules in if excluded qs (meet p q) then others else allow ms q ∷ others
prune qs p (gate ms q ∷ rules) =
    let others = prune qs p rules in if excluded qs (meet p q) then others else gate ms q ∷ others
prune qs p (open_to q ∷ rules) =
    let others = prune qs p rules in if excluded qs (meet p q) then others else open_to q ∷ others
prune qs p (except ms q r ∷ rules) =
    let others = prune qs p rules in
    if excluded qs (meet p q)
    then others
    else (if excluded qs (meet p r) then gate ms q ∷ others else except ms q r ∷ others)

module _ (qs : List (List Seg)) (p : List Seg) (method : String) (parts : List String)
    (m : matches p parts ≡ true) (out : matches_any qs parts ≡ false) where
  missed : (q : List Seg) → excluded qs (meet p q) ≡ true → matches q parts ≡ false
  missed q e = elim (Bool-cases (matches q parts)) [
    | inr k ↦ k
    | inl k ↦
        absurd (ground (arith, excluded_sound qs (meet p q) parts e (meet_sound p q parts m k)))
  ]

  -- On such a path the lines that are left out change nothing.
  pub decide-prune :
      (rules : List Rule) → decide method parts (prune qs p rules) ≡ decide method parts rules
  unfolding decide prune
  decide-prune [] = refl
  decide-prune (allow ms q ∷ rules) = elim (Bool-cases (excluded qs (meet p q))) [
    | inl e ↦ rw (e, missed q e, decide-prune rules) (ground arith)
    | inr e ↦ rw (e, decide-prune rules) refl
  ]
  decide-prune (gate ms q ∷ rules) = elim (Bool-cases (excluded qs (meet p q))) [
    | inl e ↦ rw (e, missed q e, decide-prune rules) refl
    | inr e ↦ rw (e, decide-prune rules) refl
  ]
  decide-prune (open_to q ∷ rules) = elim (Bool-cases (excluded qs (meet p q))) [
    | inl e ↦ rw (e, missed q e, decide-prune rules) refl
    | inr e ↦ rw (e, decide-prune rules) refl
  ]
  decide-prune (except ms q r ∷ rules) = elim (Bool-cases (excluded qs (meet p q))) [
    | inl e ↦ rw (e, missed q e, decide-prune rules) refl
    | inr e ↦ elim (Bool-cases (excluded qs (meet p r))) [
      | inl f ↦ rw (e, f, missed r f, decide-prune rules) (ground arith)
      | inr f ↦ rw (e, f, decide-prune rules) refl
    ]
  ]
