-- ===== src/Queue/Lookup.antt =====
-- src/workflow/queue.js: what the key of a row gives: the SELECT, the count and the UPDATE by it.
use etnpilot.Common.{
  ◌≡◌, refl, sym, ap, ◌∙◌, Bool, true, false, [], ◌∷◌, String, eq_iff, subst, ◌≢◌, some, ◌⊎◌, inl,
  inr, any, count, update, update_row, arith, Bool-cases, str_eq→eq, eq_refl,
}
use etnpilot.Queue.Types.{Row, Table}
use etnpilot.Queue.Ops.{has_id, get_row, conflicts, keys_conflict}
use etnpilot.Queue.Invariant.{IsKeyed}

abbrev pub In : Row → Table → Type 0
In r [] = ⊥
In r (s ∷ t) = (s ≡ r) ⊎ In r t

not_In : (q r : Row) (t : Table) → any (conflicts q) t ≡ false → In r t → has_id r.id q ≡ false
unfolding keys_conflict
not_In q r [] a m = elim m [ ]
not_In q r (s ∷ t) a (inl e) =
    let i : s.id ≡ r.id = ap (λ x. x.id) e in ground (arith, eq_iff q.id r.id, eq_iff s.id q.id)
not_In q r (s ∷ t) a (inr m) = not_In q r t (ground arith) m

-- A row of the table is what the SELECT by its key finds.
pub In-get_row : (t : Table) (r : Row) → IsKeyed t → In r t → get_row r.id t ≡ some r
In-get_row [] r k m = elim m [ ]
In-get_row (s ∷ t) r k (inl e) = rw e (rw (eq_refl r.id))
In-get_row (s ∷ t) r k (inr m) = rw (not_In s r t k.0 m) (In-get_row t r k.1 m)

pub get_row-In : (id : String) (t : Table) (r : Row) → get_row id t ≡ some r → In r t × (r.id ≡ id)
get_row-In id [] r e = cc
get_row-In id (s ∷ t) r e = elim (Bool-cases (has_id id s)) [
  | inl h ↦
      let same : s ≡ r = ground arith in (inl same, sym (ap (λ x. x.id) same) ∙ str_eq→eq s.id id h)
  | inr h ↦ let (m, i) = get_row-In id t r (ground arith) in (inr m, i)
]

-- A test that only rows of one key pass.
abbrev pub OnlyKey : String → (Row → Bool) → Type 0
OnlyKey id test = (s : Row) → test s ≡ true → has_id id s ≡ true

count_none :
    (q : Row) (id : String) (test : Row → Bool) (t : Table)
    → OnlyKey id test
    → q.id ≡ id
    → any (conflicts q) t ≡ false
    → count test t ≡ 0
unfolding keys_conflict
count_none q id test [] o e a = refl
count_none q id test (s ∷ t) o e a = ground (arith, o s, count_none q id test t o e)

-- An UPDATE by the key of a row of the table changes exactly one row, if that row passes.
pub count_one :
    (t : Table) (r : Row) (test : Row → Bool)
    → OnlyKey r.id test
    → IsKeyed t
    → In r t
    → test r ≡ true
    → count test t ≡ 1
count_one [] r test o k m h = elim m [ ]
count_one (s ∷ t) r test o k (inl e) h =
    let here : test s ≡ true = subst (λ x. test x ≡ true) (sym e) h in
    ground (arith, here, count_none s r.id test t o (ap (λ x. x.id) e) k.0)
count_one (s ∷ t) r test o k (inr m) h =
    ground (arith, o s, not_In s r t k.0 m, count_one t r test o k.1 m h)

has_id-update_row :
    (id : String) (test : Row → Bool) (f : Row → Row) (s : Row)
    → ((x : Row) → (f x).id ≡ x.id)
    → has_id id (update_row test f s) ≡ has_id id s
has_id-update_row id test f s key = elim (Bool-cases (test s)) [
  | inl h ↦ rw h (rw (key s))
  | inr h ↦ rw h
]

-- An UPDATE that keeps the keys.
pub get_row-update :
    (id : String) (test : Row → Bool) (f : Row → Row) (t : Table) (r : Row)
    → ((x : Row) → (f x).id ≡ x.id)
    → get_row id t ≡ some r
    → get_row id (update test f t) ≡ some (update_row test f r)
get_row-update id test f [] r key e = cc
get_row-update id test f (s ∷ t) r key e =
    rw (has_id-update_row id test f s key) (elim (Bool-cases (has_id id s)) [
      | inl h ↦ rw h (ap (λ x. some (update_row test f x)) (ground arith))
      | inr h ↦ rw h (get_row-update id test f t r key (ground arith))
    ])

-- An UPDATE by the key leaves the rows of other keys alone.
pub get_row-update_other :
    (id other : String) (test : Row → Bool) (f : Row → Row) (t : Table)
    → OnlyKey id test
    → ((x : Row) → (f x).id ≡ x.id)
    → other ≢ id
    → get_row other (update test f t) ≡ get_row other t
get_row-update_other id other test f [] o key ne = refl
get_row-update_other id other test f (s ∷ t) o key ne =
    let rest = get_row-update_other id other test f t o key ne in
    elim (Bool-cases (test s)) [
      | inr h ↦ rw (h, rest)
      | inl h ↦
          let other_row : has_id other s ≡ false =
            ground (arith, o s h, eq_iff s.id id, eq_iff s.id other) in
          rw (h, key s, other_row) rest
    ]
