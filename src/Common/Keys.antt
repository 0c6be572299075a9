-- ===== src/Common/Keys.antt =====
-- Tables with a PRIMARY KEY: what the key of a row gives for SELECT, UPDATE and INSERT.
use Prim.Native.String.{String}
use text.Mathlib.Text.{◌==◌ as str_eq}
use text.Mathlib.TextEquality.{eq_iff}
use mathlib.Core.Path.{◌≡◌, refl, sym, ap, ◌∙◌}
use mathlib.Core.Logic.{inl, inr}
use mathlib.Core.Bool.{Bool, true, false, ◌&&◌}
use mathlib.Core.Option.{none, some}
use mathlib.Core.List.{List, [], ◌∷◌, ◌++◌}
use native.Mathlib.Omega.{arith}
use package.etnpilot.Common.Tests.{Bool-cases, str_eq→eq}
use package.etnpilot.Common.Lists.{any, count}
use package.etnpilot.Common.Rows.{select, update, update_row}

module _ {R : Type 0} (key : R → String) where
  abbrev pub by_key : String → R → Bool
  by_key id r = str_eq (key r) id

  -- No row has the key of a later one.
  abbrev pub Keyed : List R → Type 0
  Keyed [] = Unit
  Keyed (r ∷ t) = (any (by_key (key r)) t ≡ false) × Keyed t

  by_key-update_row :
      (id : String) (test : R → Bool) (f : R → R) (s : R)
      → ((x : R) → key (f x) ≡ key x)
      → by_key id (update_row test f s) ≡ by_key id s
  by_key-update_row id test f s k = elim (Bool-cases (test s)) [
    | inl h ↦ rw h (rw (k s))
    | inr h ↦ rw h
  ]

  pub any-update :
      (id : String) (test : R → Bool) (f : R → R) (t : List R)
      → ((x : R) → key (f x) ≡ key x)
      → any (by_key id) (update test f t) ≡ any (by_key id) t
  any-update id test f [] k = refl
  any-update id test f (s ∷ t) k = rw (by_key-update_row id test f s k, any-update id test f t k)

  key-update_row :
      (test : R → Bool) (f : R → R) (s : R)
      → ((x : R) → key (f x) ≡ key x)
      → key (update_row test f s) ≡ key s
  key-update_row test f s k = elim (Bool-cases (test s)) [ inl h ↦ rw h (k s) | inr h ↦ rw h ]

  pub Keyed-update :
      (test : R → Bool) (f : R → R) (t : List R)
      → ((x : R) → key (f x) ≡ key x)
      → Keyed t
      → Keyed (update test f t)
  Keyed-update test f [] k h = tt
  Keyed-update test f (s ∷ t) k h = (
    rw (key-update_row test f s k) (any-update (key s) test f t k ∙ h.0),
    Keyed-update test f t k h.1,
  )

  any-insert :
      (r s : R) (t : List R)
      → any (by_key (key r)) (s ∷ t) ≡ false
      → any (by_key (key s)) t ≡ false
      → any (by_key (key s)) (t ++ r ∷ []) ≡ false
  any-insert r s [] h g = ground (arith, eq_iff (key r) (key s), eq_iff (key s) (key r))
  any-insert r s (x ∷ t) h g = ground (arith, any-insert r s t)

  pub Keyed-insert :
      (r : R) (t : List R) → any (by_key (key r)) t ≡ false → Keyed t → Keyed (t ++ r ∷ [])
  Keyed-insert r [] h k = (refl, tt)
  Keyed-insert r (s ∷ t) h k = (any-insert r s t h k.0, Keyed-insert r t (ground arith) k.1)

  pub select-update :
      (id : String) (test : R → Bool) (f : R → R) (t : List R) (r : R)
      → ((x : R) → key (f x) ≡ key x)
      → select (by_key id) t ≡ some r
      → select (by_key id) (update test f t) ≡ some (update_row test f r)
  select-update id test f [] r k e = cc
  select-update id test f (s ∷ t) r k e =
      rw (by_key-update_row id test f s k) (elim (Bool-cases (by_key id s)) [
        | inl h ↦ rw h (ap (λ x. some (update_row test f x)) (ground arith))
        | inr h ↦ rw h (select-update id test f t r k (ground arith))
      ])

  pub select-update-none :
      (id : String) (test : R → Bool) (f : R → R) (t : List R)
      → ((x : R) → key (f x) ≡ key x)
      → select (by_key id) t ≡ none
      → select (by_key id) (update test f t) ≡ none
  select-update-none id test f [] k e = refl
  select-update-none id test f (s ∷ t) k e =
      rw (by_key-update_row id test f s k) (elim (Bool-cases (by_key id s)) [
        | inl h ↦ rw h (absurd (cc (rw h at e)))
        | inr h ↦ rw h (select-update-none id test f t k (ground arith))
      ])

  pub select-append :
      (id : String) (t u : List R) (r : R)
      → select (by_key id) t ≡ some r
      → select (by_key id) (t ++ u) ≡ some r
  select-append id [] u r e = absurd (cc)
  select-append id (s ∷ t) u r e = elim (Bool-cases (by_key id s)) [
    | inl h ↦ rw h (ground arith)
    | inr h ↦ rw h (select-append id t u r (ground arith))
  ]

  pub select-insert :
      (r : R) (t : List R)
      → any (by_key (key r)) t ≡ false
      → by_key (key r) r ≡ true
      → select (by_key (key r)) (t ++ r ∷ []) ≡ some r
  select-insert r [] a e = rw e refl
  select-insert r (s ∷ t) a e = ground (arith, select-insert r t)

  pub select-key :
      (id : String) (t : List R) (r : R) → select (by_key id) t ≡ some r → by_key id r ≡ true
  select-key id [] r e = absurd (cc)
  select-key id (s ∷ t) r e = elim (Bool-cases (by_key id s)) [
    | inl h ↦ ap (by_key id) (sym (ground arith)) ∙ h
    | inr h ↦ select-key id t r (ground arith)
  ]

  count_none :
      (id : String) (p : R → Bool) (t : List R)
      → any (by_key id) t ≡ false
      → count (λ r. by_key id r && p r) t ≡ 0
  count_none id p [] h = refl
  count_none id p (s ∷ t) h = ground (arith, count_none id p t)

  -- Of the rows with the key of a row that the SELECT finds, only that one is there.
  pub count_found :
      (id : String) (p : R → Bool) (t : List R) (r : R)
      → Keyed t
      → select (by_key id) t ≡ some r
      → p r ≡ true
      → count (λ s. by_key id s && p s) t ≡ 1
  count_found id p [] r k e h = absurd (cc)
  count_found id p (s ∷ t) r k e h = elim (Bool-cases (by_key id s)) [
    | inl i ↦
        let same : s ≡ r = ground arith in
        let passes : p s ≡ true = ap p same ∙ h in
        let others : any (by_key id) t ≡ false =
          ap (λ x. any (by_key x) t) (sym (str_eq→eq (key s) id i)) ∙ k.0 in
        ground (arith, passes, count_none id p t others)
    | inr i ↦ ground (arith, count_found id p t r k.1 (ground arith) h)
  ]
