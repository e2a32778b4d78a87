-- ===== src/Core/Companies/Counts.antt =====
-- How the statements of services/core-api/src/routes/companies.ts change the counts of a company.
use push_be.Prelude.{
  ℕ, suc, ◌+◌, ◌≤◌, ◌<◌, String, ◌≡◌, refl, Bool, true, false, some, ◌&&◌, List, [], ◌∷◌, arith,
  eqb, eqb_iff, any_of, All, and-eq-true, Bool-cases, inl, inr,
}
use push_be.Core.Companies.{
  Member, Invite, is_pending, is_live, is_plain, is_admin_of, count, find_first, is_member,
  transfer, remove, renew, claim, invite_ms,
}

-- After a transfer the administrators are the rows of the one user.
pub count-transfer :
    (c u : ℕ) (ms : List Member)
    → count (is_admin_of c) (transfer c u ms) ≡ count (is_member c u) ms
unfolding count transfer
count-transfer c u [] = refl
count-transfer c u (m ∷ ms) = elim (Bool-cases (eqb m.company c)) [
  | inr e ↦ ground (arith, e, count-transfer c u ms)
  | inl e ↦ elim (Bool-cases (eqb m.user u)) [
    | inl f ↦ ground (arith, e, f, count-transfer c u ms)
    | inr f ↦ elim (Bool-cases m.is_admin) [
      | inl g ↦ ground (arith, e, f, g, count-transfer c u ms)
      | inr g ↦ ground (arith, e, f, g, count-transfer c u ms)
    ]
  ]
]

-- It changes roles and nobody joins or leaves.
pub count_total-transfer :
    (c u : ℕ) (ms : List Member)
    → count (is_admin_of c) (transfer c u ms) + count (is_plain c) (transfer c u ms)
      ≡ count (is_admin_of c) ms + count (is_plain c) ms
unfolding count transfer
count_total-transfer c u [] = refl
count_total-transfer c u (m ∷ ms) = elim (Bool-cases (eqb m.company c)) [
  | inr e ↦ ground (arith, e, count_total-transfer c u ms)
  | inl e ↦ elim (Bool-cases (eqb m.user u)) [
    | inl f ↦ elim (Bool-cases m.is_admin) [
      | inl g ↦ ground (arith, e, f, g, count_total-transfer c u ms)
      | inr g ↦ ground (arith, e, f, g, count_total-transfer c u ms)
    ]
    | inr f ↦ elim (Bool-cases m.is_admin) [
      | inl g ↦ ground (arith, e, f, g, count_total-transfer c u ms)
      | inr g ↦ ground (arith, e, f, g, count_total-transfer c u ms)
    ]
  ]
]

pub count-remove-le :
    {A : Type 0} (f g : A → Bool) (xs : List A) → count f (remove g xs) ≤ count f xs
unfolding count remove
count-remove-le f g [] = omega arith
count-remove-le f g (x ∷ xs) = elim (Bool-cases (g x)) [
  | inl e ↦ ground (arith, e, count-remove-le f g xs)
  | inr e ↦ ground (arith, e, count-remove-le f g xs)
]

pub count-remove :
    {A : Type 0} (f g : A → Bool) (xs : List A)
    → count (λ x. f x && g x) xs ≡ 0
    → count f (remove g xs) ≡ count f xs
unfolding count remove
count-remove f g [] h = refl
count-remove f g (x ∷ xs) h = elim (Bool-cases (g x)) [
  | inl e ↦ elim (Bool-cases (f x)) [
    | inl k ↦ absurd (ground (arith, e, k))
    | inr k ↦ ground (arith, e, k, count-remove f g xs (ground (arith, e, k)))
  ]
  | inr e ↦ ground (arith, e, count-remove f g xs (ground (arith, e)))
]

abbrev pub is_admin_as : ℕ → ℕ → Member → Bool
is_admin_as c user m = is_admin_of c m && is_member c user m

count_admin-le :
    (c user : ℕ) (ms : List Member) → count (is_admin_as c user) ms ≤ count (is_member c user) ms
unfolding count
count_admin-le c user [] = omega arith
count_admin-le c user (m ∷ ms) = let later = count_admin-le c user ms in ground (arith, later)

-- A user with one row that is no administrator's.
pub plain-count :
    (c user : ℕ) (ms : List Member) (t : Member)
    → count (is_member c user) ms ≤ 1
    → find_first (is_member c user) ms ≡ some t
    → t.is_admin ≡ false
    → count (is_admin_as c user) ms ≡ 0
unfolding count find_first
plain-count c user [] t once h k = cc
plain-count c user (m ∷ ms) t once h k = elim (Bool-cases (is_member c user m)) [
  | inl e ↦
      let others = count_admin-le c user ms in
      let it : m ≡ t = ground (arith, e, h) in
      let plain : m.is_admin ≡ false = rw it k in ground (arith, e, others, plain)
  | inr e ↦
      let later = plain-count c user ms t (ground (arith, e)) (ground (arith, e, h)) k in
      ground (arith, e, later)
]

-- A renewal of an invite that has a seat takes no other seat.
pub count-renew-le :
    (c id now : ℕ) (hash : String) (is : List Invite)
    → All (λ i. (i.id ≡ id) → is_pending i ≡ true → now < i.expires_at) is
    → count (is_live c now) (renew id hash (now + invite_ms) is) ≤ count (is_live c now) is
unfolding count renew
count-renew-le c id now hash [] h = omega arith
count-renew-le c id now hash (i ∷ is) (p, h) = elim (Bool-cases (eqb i.id id)) [
  | inr e ↦ ground (arith, e, count-renew-le c id now hash is h)
  | inl e ↦ elim (Bool-cases (is_pending i)) [
    | inl k ↦
        let live : now < i.expires_at = p ((eqb_iff i.id id).0 e) k in
        ground (arith, e, k, live, count-renew-le c id now hash is h)
    | inr k ↦ ground (arith, e, k, count-renew-le c id now hash is h)
  ]
]

-- An invite that is claimed gives its seat free.
pub count-claim :
    (c id now : ℕ) (is : List Invite)
    → any_of (λ i. eqb i.id id && is_pending i) is ≡ true
    → All (λ i. (i.id ≡ id) → (i.company ≡ c) × (now < i.expires_at)) is
    → suc (count (is_live c now) (claim id now is)) ≡ count (is_live c now) is
unfolding count claim
count-claim c id now [] a h = cc
count-claim c id now (i ∷ is) a (p, h) = elim (Bool-cases (eqb i.id id && is_pending i)) [
  | inl e ↦
      let (same, live) = p ((eqb_iff i.id id).0 (and-eq-true (eqb i.id id) _ e).0) in
      ground (arith, e, same, live)
  | inr e ↦ ground (arith, e, count-claim c id now is (ground (arith, e)) h)
]
