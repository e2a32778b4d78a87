-- ===== src/Routing/Symbolic.antt =====
-- Running a routing function on a pattern instead of a path: what holds of every path at once.
use push_be.Prelude.{
  String, ◌≡◌, refl, subst, Bool, true, false, not, ◌&&◌, ◌||◌, List, [], ◌∷◌, Option, none, some,
  arith, elem, all_of, if◌then◌else◌, ◌==◌, eq_iff, Bool-cases, inl, inr, and-eq-true, or-eq-true,
  ◌⊎◌,
}
use push_be.Routing.{
  Seg, lit, any, one_of, rest, fits, matches, Rule, allow, gate, open_to, except, decide,
}

-- No text fits both parts.
abbrev pub apart : Seg → Seg → Bool
apart (lit s) q = not (fits q s)
apart (one_of ss) q = all_of (λ s. not (fits q s)) ss
apart p (lit t) = not (fits p t)
apart p (one_of ts) = all_of (λ t. not (fits p t)) ts
apart _ _ = false

-- Every text that fits the first part fits the second.
abbrev pub inside : Seg → Seg → Bool
inside (lit s) q = fits q s
inside (one_of ss) q = all_of (fits q) ss
inside any any = true
inside _ _ = false

pub all_of-elem :
    (f : String → Bool) (s : String) (ts : List String)
    → elem s ts ≡ true
    → all_of f ts ≡ true
    → f s ≡ true
all_of-elem f s [] h k = cc
all_of-elem f s (t ∷ ts) h k = elim (or-eq-true (t == s) (elem s ts) h) [
  | inl e ↦ subst (λ x. f x ≡ true) ((eq_iff t s).0 e) (and-eq-true (f t) _ k).0
  | inr e ↦ all_of-elem f s ts e (and-eq-true (f t) _ k).1
]

false_of_not : (b : Bool) → not b ≡ true → b ≡ false
false_of_not b h = ground arith

-- A test that fails at each text of a kind, seen from that text.
not_both :
    (f : String → Bool) (b : Bool) (s : String)
    → f s ≡ true
    → (b ≡ true → not (f s) ≡ true)
    → b ≡ false
not_both f b s k h = elim (Bool-cases b) [ inl e ↦ cc (h e) | inr e ↦ e ]

pub apart_sound : (p q : Seg) (s : String) → apart p q ≡ true → fits p s ≡ true → fits q s ≡ false
apart_sound (lit t) q s h k =
    false_of_not (fits q s) (subst (λ x. not (fits q x) ≡ true) ((eq_iff t s).0 k) h)
apart_sound (one_of ts) q s h k =
    false_of_not (fits q s) (all_of-elem (λ x. not (fits q x)) s ts k h)
apart_sound any (lit t) s h k =
    not_both (fits any) (t == s) s k
      (λ e. subst (λ x. not (fits any x) ≡ true) ((eq_iff t s).0 e) h)
apart_sound any (one_of ts) s h k =
    not_both (fits any) (elem s ts) s k (λ e. all_of-elem (λ x. not (fits any x)) s ts e h)
apart_sound rest (lit t) s h k = cc
apart_sound rest (one_of ts) s h k =
    not_both (fits rest) (elem s ts) s k (λ e. all_of-elem (λ x. not (fits rest x)) s ts e h)
apart_sound _ _ s h k = cc

pub inside_sound : (p q : Seg) (s : String) → inside p q ≡ true → fits p s ≡ true → fits q s ≡ true
inside_sound (lit t) q s h k = subst (λ x. fits q x ≡ true) ((eq_iff t s).0 k) h
inside_sound (one_of ts) q s h k = all_of-elem (fits q) s ts k h
inside_sound any any s h k = k
inside_sound _ _ s h k = cc

-- No path matches both patterns.
unfoldable pub disjoint : List Seg → List Seg → Bool
disjoint [] [] = false
disjoint [] (rest ∷ _) = false
disjoint [] (_ ∷ _) = true
disjoint (rest ∷ _) _ = false
disjoint (_ ∷ _) [] = true
disjoint (_ ∷ _) (rest ∷ _) = false
disjoint (p ∷ ps) (q ∷ qs) = apart p q || disjoint ps qs

-- Every path that matches the first pattern matches the second.
unfoldable pub within : List Seg → List Seg → Bool
within _ (rest ∷ _) = true
within [] [] = true
within (rest ∷ _) _ = false
within (p ∷ ps) (q ∷ qs) = inside p q && within ps qs
within _ _ = false

or_apart :
    (a d f m g n : Bool)
    → (a || d) ≡ true
    → (f && m) ≡ true
    → (a ≡ true → f ≡ true → g ≡ false)
    → (d ≡ true → m ≡ true → n ≡ false)
    → (g && n) ≡ false
or_apart true d true m g n h k x y = ground (arith, x refl refl)
or_apart false true true true g n h k x y = ground (arith, y refl refl)
or_apart _ _ _ _ g n h k x y = cc

and_inside :
    (a d f m g n : Bool)
    → (a && d) ≡ true
    → (f && m) ≡ true
    → (a ≡ true → f ≡ true → g ≡ true)
    → (d ≡ true → m ≡ true → n ≡ true)
    → (g && n) ≡ true
and_inside true true true true g n h k x y = ground (arith, x refl refl, y refl refl)
and_inside _ _ _ _ g n h k x y = cc

pub disjoint_sound :
    (p q : List Seg) (parts : List String)
    → disjoint p q ≡ true
    → matches p parts ≡ true
    → matches q parts ≡ false
unfolding disjoint matches
disjoint_sound [] [] parts h k = cc
disjoint_sound [] (rest ∷ _) parts h k = cc
disjoint_sound [] (q ∷ qs) [] h k = refl
disjoint_sound [] (q ∷ qs) (_ ∷ _) h k = cc
disjoint_sound (rest ∷ _) q parts h k = cc
disjoint_sound (p ∷ ps) [] [] h k = cc
disjoint_sound (p ∷ ps) [] (_ ∷ _) h k = refl
disjoint_sound (p ∷ ps) (rest ∷ qs) parts h k = cc
disjoint_sound (p ∷ ps) (q ∷ qs) [] h k = cc
disjoint_sound (p ∷ ps) (q ∷ qs) (s ∷ parts) h k =
    or_apart (apart p q) (disjoint ps qs) _ _ _ _ h k (apart_sound p q s)
      (disjoint_sound ps qs parts)

pub within_sound :
    (p q : List Seg) (parts : List String)
    → within p q ≡ true
    → matches p parts ≡ true
    → matches q parts ≡ true
unfolding within matches
within_sound [] [] parts h k = k
within_sound [] (rest ∷ _) parts h k = refl
within_sound [] (_ ∷ _) parts h k = cc
within_sound (rest ∷ _) [] parts h k = cc
within_sound (rest ∷ _) (rest ∷ _) parts h k = refl
within_sound (rest ∷ _) (_ ∷ _) parts h k = cc
within_sound (_ ∷ _) [] parts h k = cc
within_sound (p ∷ ps) (rest ∷ _) parts h k = refl
within_sound (p ∷ ps) (q ∷ qs) [] h k = cc
within_sound (p ∷ ps) (q ∷ qs) (s ∷ parts) h k =
    and_inside (inside p q) (within ps qs) _ _ _ _ h k (inside_sound p q s)
      (within_sound ps qs parts)

-- What a routing function is known to answer on every path of a pattern.
pub data Answer : Type 0 where
  unknown falls never : Answer
  gives : Bool → Answer

-- The answer is not yes.
abbrev pub refuses : Answer → Bool
refuses unknown = false
refuses falls = true
refuses never = true
refuses (gives b) = not b

-- Where some paths of the pattern take a line and others do not.
abbrev join : Answer → Answer → Answer
join a b = if refuses a && refuses b then never else unknown

-- The line with pattern `q`, on the paths of `p`: `hit` where it takes them all.
abbrev choose : List Seg → List Seg → Answer → Answer → Answer
choose p q hit miss = if disjoint p q then miss else if within p q then hit else join hit miss

-- The second test of such a line, which wants the path not to be `r`.
abbrev foresee_but : Bool → List Seg → List Seg → Answer
foresee_but false p r = gives false
foresee_but true p r = choose p r (gives false) (gives true)

unfoldable pub foresee : String → List Seg → List Rule → Answer
unfolding disjoint within
foresee method p [] = falls
foresee method p (allow ms q ∷ rules) =
    let later = foresee method p rules in
    if elem method ms then choose p q (gives true) later else later
foresee method p (gate ms q ∷ rules) = choose p q (gives (elem method ms)) (foresee method p rules)
foresee method p (open_to q ∷ rules) = choose p q (gives true) (foresee method p rules)
foresee method p (except ms q r ∷ rules) =
    choose p q (foresee_but (elem method ms) p r) (foresee method p rules)

-- What an answer says of the outcome on one path.
abbrev pub Foretells : Answer → Option Bool → Type 0
Foretells unknown outcome = Unit
Foretells falls outcome = outcome ≡ none
Foretells never outcome = (outcome ≡ none) ⊎ (outcome ≡ some false)
Foretells (gives b) outcome = outcome ≡ some b

pub refuses_sound :
    (a : Answer) (o : Option Bool)
    → refuses a ≡ true
    → Foretells a o
    → (o ≡ none) ⊎ (o ≡ some false)
refuses_sound unknown o h k = cc
refuses_sound falls o h k = inl k
refuses_sound never o h k = k
refuses_sound (gives true) o h k = cc
refuses_sound (gives false) o h k = inr k

join_sound :
    (a b : Answer) (c : Bool) (y n : Option Bool)
    → Foretells a y
    → Foretells b n
    → Foretells (join a b) (if c then y else n)
join_sound a b c y n h k = elim (Bool-cases (refuses a && refuses b)) [
  | inl e ↦ rw e (elim c as (λ c. Foretells never (if c then y else n)) [
    | true ↦ refuses_sound a y (and-eq-true _ _ e).0 h
    | false ↦ refuses_sound b n (and-eq-true (refuses a) _ e).1 k
  ])
  | inr e ↦ rw e tt
]

choose_sound :
    (p q : List Seg) (hit miss : Answer) (parts : List String) (yes_case no_case : Option Bool)
    → matches p parts ≡ true
    → Foretells hit yes_case
    → Foretells miss no_case
    → Foretells (choose p q hit miss) (if matches q parts then yes_case else no_case)
choose_sound p q hit miss parts y n m h k = elim (Bool-cases (disjoint p q)) [
  | inl e ↦ rw (e, disjoint_sound p q parts e m) k
  | inr e ↦ elim (Bool-cases (within p q)) [
    | inl w ↦ rw (e, w, within_sound p q parts w m) h
    | inr w ↦ rw (e, w) (join_sound hit miss (matches q parts) y n h k)
  ]
]

if-not : (b : Bool) → ◌≡◌ {A = Option Bool} (if b then some false else some true) (some (not b))
if-not true = refl
if-not false = refl

foresee_but_sound :
    (b : Bool) (p r : List Seg) (parts : List String)
    → matches p parts ≡ true
    → Foretells (foresee_but b p r) (some (b && not (matches r parts)))
foresee_but_sound false p r parts m = refl
foresee_but_sound true p r parts m =
    subst (λ o. Foretells (choose p r (gives false) (gives true)) o) (if-not (matches r parts))
      (choose_sound p r (gives false) (gives true) parts (some false) (some true) m refl refl)

-- The foreseen answer is the routing function's on every path that matches the pattern.
pub foresee_sound :
    (method : String) (p : List Seg) (rules : List Rule) (parts : List String)
    → matches p parts ≡ true
    → Foretells (foresee method p rules) (decide method parts rules)
unfolding foresee decide
foresee_sound method p [] parts m = refl
foresee_sound method p (allow ms q ∷ rules) parts m =
    let ih = foresee_sound method p rules parts m in
    elim (Bool-cases (elem method ms)) [
      | inl e ↦ rw e (choose_sound p q (gives true) _ parts (some true) _ m refl ih)
      | inr e ↦ rw e ih
    ]
foresee_sound method p (gate ms q ∷ rules) parts m =
    choose_sound p q _ _ parts _ _ m refl (foresee_sound method p rules parts m)
foresee_sound method p (open_to q ∷ rules) parts m =
    choose_sound p q _ _ parts _ _ m refl (foresee_sound method p rules parts m)
foresee_sound method p (except ms q r ∷ rules) parts m =
    choose_sound p q _ _ parts _ _ m (foresee_but_sound (elem method ms) p r parts m)
      (foresee_sound method p rules parts m)
